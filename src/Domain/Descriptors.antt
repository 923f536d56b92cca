-- ===== src/Domain/Descriptors.antt =====
-- No path of linux/domain_socket/socket.c leaves a descriptor behind.
use clpsz_demos.Base.{
  ℕ, ◌≡◌, refl, ap, ◌∙◌, Option, none, some, List, [], ◌∷◌, Bytes, false, arith, Bool-cases,
  Option-cases, inl, inr, length, take, lt→ltb, ◌<◌,
}
use clpsz_demos.Domain.{
  World, Kernel, is_open, close_fd, opened, listen_on, bind_to, init_listen_server, connect_to,
  connect_server,
}

close_fd-absent : (fd : ℕ) (fds : List ℕ) → is_open fd fds ≡ false → close_fd fd fds ≡ fds
unfolding is_open close_fd
close_fd-absent fd [] h = refl
close_fd-absent fd (other ∷ rest) h = ground (arith, close_fd-absent fd rest)

-- A descriptor that was new is opened and closed again.
pub close_fd-opened :
    (fd : ℕ) (fds : List ℕ) → is_open fd fds ≡ false → close_fd fd (fd ∷ fds) ≡ fds
unfolding close_fd
close_fd-opened fd fds h = ground (arith, close_fd-absent fd fds h)

-- The descriptors after a call that returns a new descriptor or -1.
abbrev pub Accounted : World → Option ℕ × World → Type 0
Accounted w (none, v) = v.fds ≡ w.fds
Accounted w (some fd, v) = v.fds ≡ fd ∷ w.fds

module _ (k : Kernel) where
  listen_on-Accounted :
      (fd : ℕ) (name : Bytes) (w v : World)
      → is_open fd w.fds ≡ false
      → v.fds ≡ fd ∷ w.fds
      → Accounted w (listen_on k fd name v)
  unfolding listen_on
  listen_on-Accounted fd name w v new held = elim (Bool-cases (k.listen v fd)) [
    | inl good ↦ rw good held
    | inr bad ↦ rw bad (ap (close_fd fd) held ∙ close_fd-opened fd w.fds new)
  ]

  bind_to-Accounted :
      (fd : ℕ) (name : Bytes) (w v : World)
      → is_open fd w.fds ≡ false
      → v.fds ≡ fd ∷ w.fds
      → Accounted w (bind_to k fd name v)
  unfolding bind_to
  bind_to-Accounted fd name w v new held = elim (Bool-cases (k.bind v fd (take 107 name))) [
    | inl good ↦ rw good (listen_on-Accounted fd name w _ new held)
    | inr bad ↦ rw bad (ap (close_fd fd) held ∙ close_fd-opened fd w.fds new)
  ]

  -- When init_listen_server fails, in whatever call, the open descriptors are those from before;
  -- when it succeeds, the returned one is open besides.
  pub init_listen_server-Accounted :
      (domain_name : Bytes) (w : World) → Accounted w (init_listen_server k domain_name w)
  unfolding init_listen_server
  init_listen_server-Accounted domain_name w = elim (Option-cases (k.socket w)) [
    | inl failed ↦ rw (init_listen_server, failed) refl
    | inr (fd, got) ↦
        rw (init_listen_server, got)
          (bind_to-Accounted fd domain_name w _ (k.socket_fresh w fd got) refl)
  ]

  connect_to-Accounted :
      (fd : ℕ) (name : Bytes) (w v : World)
      → is_open fd w.fds ≡ false
      → v.fds ≡ fd ∷ w.fds
      → Accounted w (connect_to k fd name v)
  unfolding connect_to
  connect_to-Accounted fd name w v new held = elim (Bool-cases (k.connect v fd name)) [
    | inl good ↦ rw good held
    | inr bad ↦ rw bad (ap (close_fd fd) held ∙ close_fd-opened fd w.fds new)
  ]

  -- connect_server with a name that fits in sun_path returns; when it fails, the open
  -- descriptors are those from before, and when it succeeds, the returned one is open besides.
  pub connect_server-Accounted :
      (domain_name : Bytes) (w : World)
      → length domain_name < 108
      → (out : Option ℕ × World) × (connect_server k domain_name w ≡ some out) × Accounted w out
  unfolding connect_server
  connect_server-Accounted domain_name w short = elim (Option-cases (k.socket w)) [
    | inl failed ↦ ((none, w), rw (connect_server, failed), refl)
    | inr (fd, got) ↦ (
      connect_to k fd domain_name (opened fd w),
      rw (connect_server, got, lt→ltb (length domain_name) 108 short),
      connect_to-Accounted fd domain_name w _ (k.socket_fresh w fd got) refl,
    )
  ]
