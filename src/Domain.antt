-- ===== src/Domain.antt =====
-- linux/domain_socket/socket.c: local stream sockets. The kernel's answers are a record, the
-- open descriptors and the names in the file system are the state.
pub mod Descriptors
pub mod Demo
mod Tests
use clpsz_demos.Base.{
  ℕ, ◌≡◌, ◌≢◌, Option, none, some, List, [], ◌∷◌, ◌++◌, Bytes, Bool, true, false, ltb, ◌==◌, length,
  take, if◌then◌else◌,
}

-- The open descriptors, and the names that lie in the file system.
pub record World : Type 0 where
  pub fds : List ℕ
  pub names : List Bytes

-- Whether a descriptor is open.
unfoldable pub is_open : ℕ → List ℕ → Bool
is_open fd [] = false
is_open fd (other ∷ rest) = if other == fd then true else is_open fd rest

-- What the kernel answers: a new descriptor or an error for socket and accept; success or -1 for
-- bind, listen and connect.
pub record Kernel : Type 0 where
  pub socket : World → Option ℕ
  -- A new descriptor is not open.
  pub socket_fresh : (w : World) (fd : ℕ) → socket w ≡ some fd → is_open fd w.fds ≡ false
  pub accept : World → (lsn_fd : ℕ) → Option ℕ
  pub accept_fresh :
      (w : World) (lsn_fd fd : ℕ) → accept w lsn_fd ≡ some fd → is_open fd w.fds ≡ false
  pub bind : World → (fd : ℕ) (name : Bytes) → Bool
  pub listen : World → (fd : ℕ) → Bool
  pub connect : World → (fd : ℕ) (name : Bytes) → Bool

unfoldable pub same_text : Bytes → Bytes → Bool
same_text [] [] = true
same_text [] (y ∷ ys) = false
same_text (x ∷ xs) [] = false
same_text (x ∷ xs) (y ∷ ys) = if x == y then same_text xs ys else false

unfoldable pub close_fd : ℕ → List ℕ → List ℕ
close_fd fd [] = []
close_fd fd (other ∷ rest) =
    let others = close_fd fd rest in if other == fd then others else other ∷ others

unfoldable pub unlink_name : Bytes → List Bytes → List Bytes
unlink_name name [] = []
unlink_name name (other ∷ rest) =
    let others = unlink_name name rest in if same_text other name then others else other ∷ others

abbrev pub opened : ℕ → World → World
opened fd w = record w { fds = fd ∷ w.fds }

-- close(fd); unlink(domain_name);
abbrev pub given_up : ℕ → Bytes → World → World
given_up fd name w = record { fds = close_fd fd w.fds; names = unlink_name name w.names }

-- `none` is -1.
module _ (k : Kernel) where
  unfoldable pub listen_on : (lsn_fd : ℕ) (domain_name : Bytes) → World → Option ℕ × World
  listen_on lsn_fd domain_name w =
      if k.listen w lsn_fd then (some lsn_fd, w) else (none, given_up lsn_fd domain_name w)

  -- bind makes the name, of which strncpy has copied at most 107 bytes.
  unfoldable pub bind_to : (lsn_fd : ℕ) (domain_name : Bytes) → World → Option ℕ × World
  bind_to lsn_fd domain_name w =
      if k.bind w lsn_fd (take 107 domain_name)
      then listen_on lsn_fd domain_name (record w { names = take 107 domain_name ∷ w.names })
      else (none, given_up lsn_fd domain_name w)

  unfoldable pub init_listen_server : (domain_name : Bytes) → World → Option ℕ × World
  init_listen_server domain_name w = elim (k.socket w) [
    | none ↦ (none, w)
    | some lsn_fd ↦
        bind_to lsn_fd domain_name
          (record (opened lsn_fd w) { names = unlink_name domain_name w.names })
  ]

  unfoldable pub accept_client : (lsn_fd : ℕ) → World → Option ℕ × World
  accept_client lsn_fd w = elim (k.accept w lsn_fd) [
    | none ↦ (none, w)
    | some apt_fd ↦ (some apt_fd, opened apt_fd w)
  ]

  unfoldable pub connect_to : (connect_fd : ℕ) (domain_name : Bytes) → World → Option ℕ × World
  connect_to connect_fd domain_name w =
      if k.connect w connect_fd domain_name
      then (some connect_fd, w)
      else (none, given_up connect_fd domain_name w)

  -- sun_path has 108 bytes: strcpy of a longer name is undefined.
  unfoldable pub connect_server : (domain_name : Bytes) → World → Option (Option ℕ × World)
  connect_server domain_name w = elim (k.socket w) [
    | none ↦ some (none, w)
    | some connect_fd ↦
        if ltb (length domain_name) 108
        then some (connect_to connect_fd domain_name (opened connect_fd w))
        else none
  ]
