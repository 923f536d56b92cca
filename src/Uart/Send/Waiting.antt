-- ===== src/Uart/Send/Waiting.antt =====
-- ser_cmd_send when no reply comes.
use clpsz_demos.Base.{
  ℕ, ◌+◌, ◌≤◌, ◌≡◌, refl, sym, ap, ◌∙◌, Bool, false, Option, none, some, List, [], ◌∷◌, ◌++◌,
  append_assoc, append-nil, length, drop, joined, Bytes, AreBytes, All, u8, ≡→==,
}
use mathlib.Core.Path.{subst}
use clpsz_demos.Uart.Decode.{
  Scan, hunting, seen_at, seen_head, collecting, Event, dropped, command, reply, crash, also, scan,
  decode, crashes, answers_to,
}
use clpsz_demos.Uart.Packet.{ErrCode, err_ok}
use clpsz_demos.Uart.Packet.RoundTrip.{packet}
use clpsz_demos.Uart.State.{find_block, Host, Serial, and_then}
use clpsz_demos.Uart.Receive.{ser_cmd_rcv, rcv_byte}
use clpsz_demos.Uart.Receive.Assembly.{IsIdle}
use clpsz_demos.Uart.Receive.Effects.{replied_after}
use clpsz_demos.Uart.Receive.Places.{Statics, state_of}
use clpsz_demos.Uart.Receive.Sessions.{Plenty}
use clpsz_demos.Uart.Receive.Stream.{Runs, ser_cmd_rcv-decode}
use clpsz_demos.Uart.Send.{ser_cmd_send, ser_hal_rcvreply, return_of}
use clpsz_demos.Uart.Send.Exchange.{gone_out, to_GoesOut}

-- An event that does not end the wait.
abbrev pub IsQuiet : Event → Type 0
IsQuiet (reply block) = ⊥
IsQuiet crash = ⊥
IsQuiet e = Unit

crashes-IsQuiet : (es : List Event) → All IsQuiet es → crashes es ≡ false
unfolding crashes
crashes-IsQuiet [] quiet = refl
crashes-IsQuiet (dropped ∷ es) quiet = crashes-IsQuiet es quiet.1
crashes-IsQuiet (command c sn p ∷ es) quiet = crashes-IsQuiet es quiet.1
crashes-IsQuiet (reply b ∷ es) quiet = absurd quiet.0
crashes-IsQuiet (crash ∷ es) quiet = absurd quiet.0

replied_after-IsQuiet : (es : List Event) (r : ℕ) → All IsQuiet es → replied_after es r ≡ r
unfolding replied_after
replied_after-IsQuiet [] r quiet = refl
replied_after-IsQuiet (dropped ∷ es) r quiet = replied_after-IsQuiet es r quiet.1
replied_after-IsQuiet (command c sn p ∷ es) r quiet = replied_after-IsQuiet es r quiet.1
replied_after-IsQuiet (reply b ∷ es) r quiet = absurd quiet.0
replied_after-IsQuiet (crash ∷ es) r quiet = absurd quiet.0

-- The first bytes of a stream in which nothing ends the wait.
also-IsQuiet :
    (o : Option Event) (xs ys : List Event)
    → (All IsQuiet ys → All IsQuiet xs)
    → All IsQuiet (also o ys)
    → All IsQuiet (also o xs)
also-IsQuiet none xs ys f quiet = f quiet
also-IsQuiet (some e) xs ys f quiet = (quiet.0, f quiet.1)

decode-front :
    (s : Scan) (xs ys : Bytes) → All IsQuiet (decode s (xs ++ ys)) → All IsQuiet (decode s xs)
unfolding decode
decode-front s [] ys quiet = tt
decode-front s (x ∷ xs) ys quiet =
    also-IsQuiet (scan s x).1 _ _ (decode-front (scan s x).0 xs ys) quiet

AreBytes-front : (xs ys : Bytes) → AreBytes (xs ++ ys) → AreBytes xs
AreBytes-front [] ys bytes = tt
AreBytes-front (x ∷ xs) ys bytes = (bytes.0, AreBytes-front xs ys bytes.1)

-- A run over some bytes and then over others.
and_then-later :
    (o : Option (Unit {0} × Serial)) (f g : Serial → Option (ErrCode × Serial))
    (k : ErrCode × Serial → Option (ErrCode × Serial))
    → ((v : Serial) → f v ≡ and_then (g v) k)
    → and_then o (λ (u, v). f v) ≡ and_then (and_then o (λ (u, v). g v)) k
and_then-later none f g k same = refl
and_then-later (some (u, v)) f g k same = same v

ser_cmd_rcv-append :
    (host : Host) (xs ys : Bytes) (w : Serial)
    → ser_cmd_rcv host (xs ++ ys) w
      ≡ and_then (ser_cmd_rcv host xs w) (λ (e, v). ser_cmd_rcv host ys v)
unfolding ser_cmd_rcv
ser_cmd_rcv-append host [] ys w = refl
ser_cmd_rcv-append host (x ∷ xs) ys w =
    and_then-later (rcv_byte host x w) (ser_cmd_rcv host (xs ++ ys)) (ser_cmd_rcv host xs)
      (λ (e, v). ser_cmd_rcv host ys v) (ser_cmd_rcv-append host xs ys)

state_of-kept :
    (s : Scan) (z : Statics) (w : Serial)
    → ((state_of s z w).replied ≡ w.replied)
      × ((state_of s z w).wire ≡ w.wire)
      × ((state_of s z w).send_sn ≡ w.send_sn)
state_of-kept hunting z w = (refl, refl, refl)
state_of-kept seen_at z w = (refl, refl, refl)
state_of-kept seen_head z w = (refl, refl, refl)
state_of-kept (collecting n left body) z w = (refl, refl, refl)

state_or : Serial → Option (ErrCode × Serial) → Serial
state_or w none = w
state_or w (some (e, v)) = v

one_state :
    (o : Option (ErrCode × Serial)) (u v : Serial)
    → o ≡ some (err_ok, u)
    → o ≡ some (err_ok, v)
    → u ≡ v
unfolding state_or
one_state o u v p q = ap (state_or u) (sym p ∙ q)

-- Bytes that do not end the wait leave the flag as it is.
record Quiet (host : Host) (xs : Bytes) (w : Serial) : Type 0 where
  after : Serial
  runs : ser_cmd_rcv host xs w ≡ some (err_ok, after)
  waiting : after.replied ≡ w.replied
  wire : after.wire ≡ w.wire ++ answers_to (decode hunting xs)
  send_sn : after.send_sn ≡ w.send_sn

module _ (host : Host) (plenty : Plenty host) (w : Serial) (ready : IsIdle w.rcv) where
  to_Quiet : (xs : Bytes) → AreBytes xs → All IsQuiet (decode hunting xs) → Quiet host xs w
  to_Quiet xs bytes quiet =
      let es = decode hunting xs in
      let (v, runs, r) =
        subst (λ (c : Bool). Runs c es w (ser_cmd_rcv host xs w)) (crashes-IsQuiet es quiet)
          (ser_cmd_rcv-decode host xs w plenty bytes ready) in
      let (replied, wire, send_sn) = state_of-kept r.place r.statics r.base in
      record {
        after = v;
        runs = runs;
        waiting =
            ap (λ (t : Serial). t.replied) r.form
            ∙ replied
            ∙ r.heard.replied
            ∙ replied_after-IsQuiet es w.replied quiet;
        wire = ap (λ (t : Serial). t.wire) r.form ∙ wire ∙ r.heard.wire;
        send_sn = ap (λ (t : Serial). t.send_sn) r.form ∙ send_sn ∙ r.heard.send_sn;
      }

  -- The wait goes on over all slices, and has then read all their bytes.
  waits :
      (want : Bool) (sn timeout : ℕ) (before : Bytes) (slices : List Bytes) (v t : Serial)
      → w.replied ≡ 0
      → AreBytes (before ++ joined slices)
      → All IsQuiet (decode hunting (before ++ joined slices))
      → ser_cmd_rcv host before w ≡ some (err_ok, v)
      → ser_cmd_rcv host (before ++ joined slices) w ≡ some (err_ok, t)
      → ser_hal_rcvreply host want sn timeout slices v ≡ some (none, t)
  unfolding ser_hal_rcvreply
  waits want sn timeout before [] v t zero bytes quiet now last =
      let q =
        to_Quiet before (AreBytes-front before [] bytes) (decode-front hunting before [] quiet) in
      let same = one_state (ser_cmd_rcv host before w) q.after v q.runs now in
      let still : v.replied ≡ 0 = sym (ap (λ (u : Serial). u.replied) same) ∙ q.waiting ∙ zero in
      let ends : v ≡ t =
        one_state (ser_cmd_rcv host before w) v t now
          (ap (λ (b : Bytes). ser_cmd_rcv host b w) (sym (append-nil before)) ∙ last) in
      rw (≡→== v.replied 0 still) (ap (λ (u : Serial). some (none, u)) ends)
  waits want sn timeout before (slice ∷ slices) v t zero bytes quiet now last =
      let split = sym (append_assoc before slice (joined slices)) in
      let all = subst AreBytes split bytes in
      let silent = subst (λ (b : Bytes). All IsQuiet (decode hunting b)) split quiet in
      let q =
        to_Quiet before (AreBytes-front before (slice ++ joined slices) bytes)
          (decode-front hunting before (slice ++ joined slices) quiet) in
      let same = one_state (ser_cmd_rcv host before w) q.after v q.runs now in
      let still : v.replied ≡ 0 = sym (ap (λ (u : Serial). u.replied) same) ∙ q.waiting ∙ zero in
      let more =
        to_Quiet (before ++ slice) (AreBytes-front (before ++ slice) (joined slices) all)
          (decode-front hunting (before ++ slice) (joined slices) silent) in
      let reads : ser_cmd_rcv host slice v ≡ some (err_ok, more.after) =
        sym (
          ser_cmd_rcv-append host before slice w
          ∙ ap (λ (o : Option (ErrCode × Serial)). and_then o (λ (e, u). ser_cmd_rcv host slice u))
              now)
        ∙ more.runs in
      rw (≡→== v.replied 0 still, reads)
        (waits want sn timeout (before ++ slice) slices more.after t zero all silent more.runs
          (ap (λ (b : Bytes). ser_cmd_rcv host b w) (sym split) ∙ last))

-- A reply that does not come: whatever the line delivers in however many sleeps, as long as no
-- good packet with the reply bit and none with command 0 is in it, ser_cmd_send has not come
-- back, for any timeout that was set. Its command is on the wire, and the receiving thread has
-- answered the commands that came in.
pub ser_cmd_send-waits :
    (host : Host) (ret_res cmd q off : ℕ) (block xs more : Bytes) (want : Bool)
    (slices : List Bytes) (w : Serial)
    → Plenty host
    → find_block q w.heap ≡ some block
    → drop off block ≡ xs ++ more
    → length xs ≤ 249
    → IsIdle w.rcv
    → w.replied ≡ 0
    → AreBytes (joined slices)
    → All IsQuiet (decode hunting (joined slices))
    → (v : Serial) × (ser_cmd_send host ret_res cmd (some (q, off)) (length xs) want slices w
        ≡ some (none, v))
      × (v.wire ≡ w.wire ++ packet cmd w.send_sn xs ∷ answers_to (decode hunting (joined slices)))
      × (v.send_sn ≡ u8 (w.send_sn + 1))
unfolding return_of ser_cmd_rcv
ser_cmd_send-waits host ret_res cmd q off block xs more want slices w plenty found readable small
      ready waiting bytes quiet =
    let g = to_GoesOut host ret_res cmd q off block xs more want w plenty found readable small in
    let request = packet cmd w.send_sn xs in
    let out = gone_out host g.at request w in
    let r = to_Quiet host plenty out ready (joined slices) bytes quiet in
    let goes_on =
      waits host plenty out ready want w.send_sn w.timeout [] slices out r.after waiting bytes quiet
        refl r.runs in
    (
      r.after,
      g.waits slices ∙ rw goes_on,
      r.wire ∙ append_assoc w.wire (request ∷ []) (answers_to (decode hunting (joined slices))),
      r.send_sn,
    )
