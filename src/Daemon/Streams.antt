-- ===== src/Daemon/Streams.antt =====
-- The descriptors of the daemon that linux/daemonize/daemonize.c makes.
use clpsz_demos.Base.{
  ℕ, zero, suc, ◌+◌, ◌≤◌, ◌<◌, ◌≡◌, refl, ap, ◌∙◌, sym, some, List, [], ◌∷◌, All, Bool, true, false,
  ◌==◌, arith, if◌then◌else◌, Bool-cases, inl, inr,
}
use clpsz_demos.Daemon.{
  Fork, child, Process, Kernel, running, close_loop, with_fd, is_fd, dup_zero, attach, rlim_max,
  detach, second, lead, first, daemonize,
}
use clpsz_demos.Domain.{is_open, close_fd}

-- Numbers from `i` up to below `top`.
abbrev pub Within : (i top : ℕ) → List ℕ → Type 0
Within i top = All (λ fd. (i ≤ fd) × (fd < top))

close_fd-Within :
    (i top : ℕ) (fds : List ℕ) → Within i top fds → Within (i + 1) top (close_fd i fds)
unfolding close_fd
close_fd-Within i top [] h = tt
close_fd-Within i top (fd ∷ fds) h = elim (Bool-cases (fd == i)) [
  | inl same ↦ rw same (close_fd-Within i top fds h.1)
  | inr other ↦
      let above : i + 1 ≤ fd = ground (arith, h.0.0) in
      rw other ((above, h.0.1), close_fd-Within i top fds h.1)
]

close_loop-Within :
    (i left : ℕ) (fds : List ℕ) → Within i (i + left) fds → close_loop i left fds ≡ []
unfolding close_loop
close_loop-Within i zero [] h = refl
close_loop-Within i zero (fd ∷ fds) h = absurd (omega (arith, h.0.0, h.0.1))
close_loop-Within i (suc left) fds h =
    let sum : i + suc left ≡ i + 1 + left = omega arith in
    close_loop-Within (i + 1) left (close_fd i fds)
      (close_fd-Within i (i + 1 + left) fds (rw (sym sum) h))

module _ (k : Kernel) where
  new_fd-zero : (fd : ℕ) → k.new_fd [] ≡ some fd → fd ≡ 0
  unfolding is_open
  new_fd-zero fd got = ground (arith, k.new_fd_lowest [] fd 0 got)

  new_fd-one : (fd : ℕ) → k.new_fd (0 ∷ []) ≡ some fd → fd ≡ 1
  unfolding is_open
  new_fd-one fd got =
      ground (arith, k.new_fd_lowest (0 ∷ []) fd 1 got, k.new_fd_free (0 ∷ []) fd got)

  new_fd-two : (fd : ℕ) → k.new_fd (1 ∷ 0 ∷ []) ≡ some fd → fd ≡ 2
  unfolding is_open
  new_fd-two fd got =
      ground (arith, k.new_fd_lowest (1 ∷ 0 ∷ []) fd 2 got, k.new_fd_free (1 ∷ 0 ∷ []) fd got)

  abbrev pub OpensAt : List ℕ → Type 0
  OpensAt fds = (fd : ℕ) × (k.new_fd fds ≡ some fd)

  -- There is room for three descriptors.
  abbrev pub Opens : Type 0
  Opens = OpensAt [] × (OpensAt (0 ∷ []) × OpensAt (1 ∷ 0 ∷ []))

  attach-standard :
      (p : Process) → Opens → p.fds ≡ [] → attach k p ≡ (running, record p { fds = 2 ∷ 1 ∷ 0 ∷ [] })
  unfolding attach with_fd dup_zero is_fd is_open
  attach-standard p opens closed =
      let (a, got_a) = opens.0 in
      let zero_got = got_a ∙ ap some (new_fd-zero a got_a) in
      let (b, got_b) = opens.1.0 in
      let one_got = got_b ∙ ap some (new_fd-one b got_b) in
      let (c, got_c) = opens.1.1 in
      let two_got = got_c ∙ ap some (new_fd-two c got_c) in rw (closed, zero_got, one_got, two_got)

  lead_lem :
      (p : Process)
      → k.setsid ≡ true
      → lead k p ≡ record p {
        leads_session = true;
        own_session = true;
        ignores_hup = if k.sigaction then true else p.ignores_hup;
      }
  unfolding lead
  lead_lem p leads =
      ap
        (λ (b : Bool). record p {
          leads_session = if b then true else p.leads_session;
          own_session = if b then true else p.own_session;
          ignores_hup = if k.sigaction then true else p.ignores_hup;
        })
        leads

  -- A process that both forks make a child, that makes a session of its own, whose open
  -- descriptors all lie below the limit, and that can open three files ends in that session, but
  -- not as its leader, with a clear umask; the only open descriptors are 0, 1 and 2, and where
  -- sigaction and chdir succeed, it ignores SIGHUP and is in the root directory.
  pub daemonize-standard :
      (p : Process)
      → k.first_fork ≡ child
      → k.second_fork ≡ child
      → k.setsid ≡ true
      → Opens
      → Within 0 (rlim_max k) p.fds
      → (v : Process) × (daemonize k p ≡ (running, v))
        × (v.fds ≡ 2 ∷ 1 ∷ 0 ∷ [])
        × (v.own_session ≡ true)
        × (v.leads_session ≡ false)
        × (v.umask ≡ 0)
        × (v.ignores_hup ≡ (if k.sigaction then true else p.ignores_hup))
        × (v.in_root ≡ (if k.chdir then true else p.in_root))
  unfolding daemonize first second lead detach
  daemonize-standard p one two leads opens low =
      let from_zero : 0 + rlim_max k ≡ rlim_max k = omega arith in
      let closed : close_loop 0 (rlim_max k) p.fds ≡ [] =
        close_loop-Within 0 (rlim_max k) p.fds (rw from_zero low) in
      let v : Process = record {
        fds = 2 ∷ 1 ∷ 0 ∷ [];
        umask = 0;
        leads_session = false;
        own_session = true;
        ignores_hup = if k.sigaction then true else p.ignores_hup;
        in_root = if k.chdir then true else p.in_root;
      } in
      let masked : Process = record p { umask = 0 } in
      let masked_child : Process = record masked { leads_session = false } in
      let led = lead k masked_child in
      let bare : Process = record masked {
        leads_session = false;
        own_session = true;
        ignores_hup = if k.sigaction then true else p.ignores_hup;
        in_root = if k.chdir then true else p.in_root;
        fds = close_loop 0 (rlim_max k) p.fds;
      } in
      let runs =
        ap (λ (f : Fork). first k f masked) one
        ∙ ap (λ (f : Fork). second k f led) two
        ∙ ap (λ (q : Process). detach k (record q { leads_session = false }))
            (lead_lem masked_child leads)
        ∙ attach-standard bare opens closed in
      (v, runs, refl, refl, refl, refl, refl, refl)
