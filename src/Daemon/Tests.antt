-- ===== src/Daemon/Tests.antt =====
-- A kernel that lets a daemon start, with a table of three descriptors.
use clpsz_demos.Base.{
  ℕ, zero, suc, ◌<◌, ◌≡◌, refl, Option, none, some, List, [], ◌∷◌, true, false, arith,
  if◌then◌else◌,
}
use clpsz_demos.Daemon.{child, Process, Kernel, running, daemonize, rlim_max}
use clpsz_demos.Daemon.Streams.{daemonize-standard}
use clpsz_demos.Domain.{is_open}

unfoldable three : List ℕ → Option ℕ
three fds =
    if is_open 0 fds
    then if is_open 1 fds then if is_open 2 fds then none else some 2 else some 1
    else some 0

three-free : (fds : List ℕ) (fd : ℕ) → three fds ≡ some fd → is_open fd fds ≡ false
unfolding three
three-free fds zero e = ground arith
three-free fds (suc zero) e = ground arith
three-free fds (suc (suc zero)) e = ground arith
three-free fds (suc (suc (suc fd))) e = ground arith

three-lowest :
    (fds : List ℕ) (fd other : ℕ) → three fds ≡ some fd → other < fd → is_open other fds ≡ true
unfolding three
three-lowest fds fd zero e h = ground arith
three-lowest fds fd (suc zero) e h = ground arith
three-lowest fds fd (suc (suc other)) e h = ground arith

abbrev kernel : Kernel
kernel = record {
  getrlimit = some 4096;
  stale = 0;
  infinity = 99999;
  first_fork = child;
  second_fork = child;
  setsid = true;
  sigaction = true;
  chdir = true;
  new_fd = three;
  new_fd_free = three-free;
  new_fd_lowest = three-lowest;
}

abbrev shell : Process
shell = record {
  fds = 7 ∷ 2 ∷ 1 ∷ 0 ∷ [];
  umask = 18;
  leads_session = false;
  own_session = false;
  ignores_hup = false;
  in_root = false;
}

daemonize-standard_example :
    (v : Process) × (daemonize kernel shell ≡ (running, v))
    × (v.fds ≡ 2 ∷ 1 ∷ 0 ∷ [])
    × (v.own_session ≡ true)
    × (v.leads_session ≡ false)
    × (v.umask ≡ 0)
    × (v.ignores_hup ≡ true)
    × (v.in_root ≡ true)
unfolding three is_open rlim_max
daemonize-standard_example =
    daemonize-standard kernel shell refl refl refl ((0, refl), ((1, refl), (2, refl)))
      (
        (omega arith, omega arith),
        (
          (omega arith, omega arith),
          ((omega arith, omega arith), ((omega arith, omega arith), tt)),
        ),
      )
