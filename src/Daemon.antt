-- ===== src/Daemon.antt =====
-- linux/daemonize/daemonize.c: how a process becomes a daemon. The kernel's answers are a
-- record, the process is the state.
pub mod Streams
mod Tests
use clpsz_demos.Base.{
  ℕ, zero, suc, ◌+◌, ◌<◌, ◌≡◌, Option, none, some, List, [], ◌∷◌, Bool, true, false, ◌==◌, ◌&&◌,
  if◌then◌else◌,
}
use clpsz_demos.Domain.{is_open, close_fd}

-- What a fork returns: an error, the child's pid in the parent, 0 in the child.
pub data Fork : Type 0 where
  failed parent child : Fork

pub record Process : Type 0 where
  pub fds : List ℕ
  pub umask : ℕ
  pub leads_session : Bool
  -- It is in a session that setsid made.
  pub own_session : Bool
  pub ignores_hup : Bool
  pub in_root : Bool

-- The kernel. `stale` is what rl holds when getrlimit fails; `none` is an open or a dup that
-- fails, else the result is the lowest number that is free.
pub record Kernel : Type 0 where
  pub getrlimit : Option ℕ
  pub stale : ℕ
  pub infinity : ℕ
  pub first_fork : Fork
  pub second_fork : Fork
  pub setsid : Bool
  pub sigaction : Bool
  pub chdir : Bool
  pub new_fd : List ℕ → Option ℕ
  pub new_fd_free : (fds : List ℕ) (fd : ℕ) → new_fd fds ≡ some fd → is_open fd fds ≡ false
  pub new_fd_lowest :
      (fds : List ℕ) (fd other : ℕ) → new_fd fds ≡ some fd → other < fd → is_open other fds ≡ true

pub data Ending : Type 0 where
  exit : ℕ → Ending
  running : Ending

-- `for (i = 0; i < rl.rlim_max; i++) close(i);`
unfoldable pub close_loop : (i left : ℕ) → List ℕ → List ℕ
close_loop i zero fds = fds
close_loop i (suc left) fds = close_loop (i + 1) left (close_fd i fds)

unfoldable pub with_fd : Option ℕ → List ℕ → List ℕ
with_fd none fds = fds
with_fd (some fd) fds = fd ∷ fds

unfoldable pub is_fd : Option ℕ → ℕ → Bool
is_fd none n = false
is_fd (some fd) n = fd == n

module _ (k : Kernel) where
  -- `fd0 = open(...)`, `fd1 = dup(0)` and `fd2 = dup(0)`; dup fails when 0 is not open.
  unfoldable pub dup_zero : List ℕ → Option ℕ
  dup_zero fds = if is_open 0 fds then k.new_fd fds else none

  unfoldable pub attach : Process → Ending × Process
  attach p =
      let fd0 = k.new_fd p.fds in
      let fds0 = with_fd fd0 p.fds in
      let fd1 = dup_zero fds0 in
      let fds1 = with_fd fd1 fds0 in
      let fd2 = dup_zero fds1 in
      let fds2 = with_fd fd2 fds1 in
      let attached = record p { fds = fds2 } in
      if is_fd fd0 0 && (is_fd fd1 1 && is_fd fd2 2)
      then (running, attached)
      else (exit 1, attached)

  unfoldable pub rlim_max : ℕ
  rlim_max = elim k.getrlimit [
    | none ↦ if k.stale == k.infinity then 1024 else k.stale
    | some max ↦ if max == k.infinity then 1024 else max
  ]

  -- The part behind the forks. A chdir that fails is only reported.
  unfoldable pub detach : Process → Ending × Process
  detach p = attach (record p {
    in_root = if k.chdir then true else p.in_root;
    fds = close_loop 0 rlim_max p.fds;
  })

  -- A fork that fails is only reported, and the process goes on.
  -- The child does not lead the session.
  unfoldable pub second : Fork → Process → Ending × Process
  second parent p = (exit 0, p)
  second failed p = detach p
  second child p = detach (record p { leads_session = false })

  -- setsid, whose result is not looked at, and sigaction.
  unfoldable pub lead : Process → Process
  lead p = record p {
    leads_session = if k.setsid then true else p.leads_session;
    own_session = if k.setsid then true else p.own_session;
    ignores_hup = if k.sigaction then true else p.ignores_hup;
  }

  unfoldable pub first : Fork → Process → Ending × Process
  first parent p = (exit 0, p)
  first failed p = second k.second_fork (lead p)
  first child p = second k.second_fork (lead (record p { leads_session = false }))

  unfoldable pub daemonize : Process → Ending × Process
  daemonize p = first k.first_fork (record p { umask = 0 })
