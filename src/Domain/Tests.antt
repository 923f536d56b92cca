-- ===== src/Domain/Tests.antt =====
-- A kernel that answers as it is told, and runs of the socket calls.
use clpsz_demos.Base.{
  ◌≤◌, Bytes, length, length-take, take, ap, ℕ, ◌+◌, ◌<◌, ◌≡◌, refl, Option, none, some, List, [],
  ◌∷◌, Bool, true, false, codes, arith,
}
use clpsz_demos.Domain.{
  World, Kernel, is_open, init_listen_server, connect_server, bind_to, listen_on, close_fd,
  unlink_name, same_text, connect_to, accept_client,
}
use clpsz_demos.Domain.Demo.{Reader, request, read_from, accept_on, parent, child, show}
use clpsz_demos.Domain.Demo.Exchange.{
  greeted, before_nul, written_on, parent-printed_for, child-written_on,
}
use clpsz_demos.Json.Text.{zeros}
use clpsz_demos.Domain.Descriptors.{
  Accounted, init_listen_server-Accounted, connect_server-Accounted,
}

-- A descriptor above all others.
unfoldable above : List ℕ → ℕ
above [] = 3
above (fd ∷ fds) = above fds + fd + 1

above-is_new : (fds : List ℕ) (fd : ℕ) → above fds < fd + 1 → is_open fd fds ≡ false
unfolding is_open above
above-is_new [] fd h = refl
above-is_new (other ∷ fds) fd h = ground (arith, above-is_new fds fd)

next_fd : (w : World) (fd : ℕ) → some (above w.fds) ≡ some fd → is_open fd w.fds ≡ false
next_fd w fd e = let same : above w.fds ≡ fd = cc in above-is_new w.fds fd (omega arith)

abbrev told : (binds listens connects : Bool) → Kernel
told binds listens connects = record {
  socket = λ w. some (above w.fds);
  socket_fresh = next_fd;
  accept = λ w lsn_fd. some (above w.fds);
  accept_fresh = λ w lsn_fd. next_fd w;
  bind = λ w fd name. binds;
  listen = λ w fd. listens;
  connect = λ w fd name. connects;
}

abbrev before : World
before = record { fds = 2 ∷ 1 ∷ 0 ∷ []; names = codes "old" ∷ codes "request" ∷ [] }

-- listen fails: the descriptor and the name go again, and the name from before stays gone.
listen_refused :
    init_listen_server (told true false true) (codes "request") before
    ≡ (none, record before { names = codes "old" ∷ [] })
unfolding init_listen_server bind_to listen_on close_fd unlink_name same_text above
listen_refused = refl

-- A client whose connect is refused removes the name of the server.
connect_refused :
    connect_server (told true true false) (codes "request") before
    ≡ some (none, record before { names = codes "old" ∷ [] })
unfolding connect_server connect_to close_fd unlink_name same_text above
connect_refused = refl

init_listen_server-Accounted_example :
    Accounted before (init_listen_server (told true false true) (codes "request") before)
init_listen_server-Accounted_example =
    init_listen_server-Accounted (told true false true) (codes "request") before

connect_server-Accounted_example :
    (out : Option ℕ × World) × (connect_server (told true true false) (codes "request") before
      ≡ some out)
    × Accounted before out
connect_server-Accounted_example =
    connect_server-Accounted (told true true false) (codes "request") before (omega arith)

greeting_fits :
    (count : ℕ) (xs : Bytes) → some (take count (greeted 115)) ≡ some xs → length xs ≤ count
greeting_fits count xs e =
    let same : take count (greeted 115) ≡ xs = cc in
    omega (arith, length-take count (greeted 115), ap length same)

-- A secret behind the literal, and a parent that reads all that was written.
abbrev reads_greeting : Reader
reads_greeting = record {
  read = λ fd count. some (take count (greeted 115));
  read_bounded = λ fd count. greeting_fits count;
}

parent-printed_for_example :
    parent (told true true true) reads_greeting (zeros 128) before
    ≡ some (
      some (codes "I am child"),
      record { fds = 19 ∷ 9 ∷ before.fds; names = request ∷ before.names },
    )
unfolding init_listen_server bind_to listen_on accept_client read_from accept_on above zeros
    before_nul request unlink_name same_text
parent-printed_for_example =
    parent-printed_for (told true true true) reads_greeting (zeros 128) before refl

-- listen fails: nothing is printed.
parent_refused :
    parent (told true false true) reads_greeting (zeros 128) before ≡ some (none, before)
unfolding init_listen_server bind_to listen_on close_fd unlink_name same_text read_from accept_on
    above zeros request parent show
parent_refused = refl

child-written_on_example :
    (out : Option ℕ × World) × (connect_server (told true true true) request before ≡ some out)
    × (child (told true true true) (codes "secret") before ≡ some (written_on out.0 115, out.1))
    × (length (greeted 115) ≡ 12)
    × (before_nul (greeted 115) ≡ codes "I am child")
child-written_on_example = child-written_on (told true true true) 115 (codes "ecret") before
