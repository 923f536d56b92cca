-- ===== src/Uart/Read.antt =====
-- ser_hal_read of ser_hal.c: a byte at a time, with a new attempt where read(2) fails. What the
-- kernel answers in each turn of the loop is a list.
mod Tests
use clpsz_demos.Base.{
  ℕ, zero, suc, ◌+◌, ◌≤◌, ◌≡◌, refl, sym, ap, ◌∙◌, Option, none, some, List, [], ◌∷◌, ◌++◌, Bytes,
  Bool, codes, arith, length, take, drop, append_assoc, append-nil, if◌then◌else◌, Option-cases,
  inl, inr,
}

-- select(2) returns more than 0; the byte that read(2) stores, when it returns more than 0.
pub record Attempt : Type 0 where
  pub selected : Bool
  pub byte : Option ℕ

-- What perror prints in a turn.
unfoldable pub complaints : Attempt → List Bytes
complaints attempt =
    (if attempt.selected then [] else codes "select()" ∷ [])
    ++ elim attempt.byte [ none ↦ codes "read()" ∷ [] | some ch ↦ [] ]

-- The loop with `left` bytes to read: the bytes stored, what was printed, and the attempts that are
-- left. `none` is a call that still waits.
unfoldable pub read_loop :
    List Attempt
    → (left : ℕ) → (stored : Bytes) (said : List Bytes) → Option (Bytes × List Bytes × List Attempt)
read_loop attempts zero stored said = some (stored, said, attempts)
read_loop [] (suc left) stored said = none
read_loop (attempt ∷ attempts) (suc left) stored said = elim attempt.byte [
  | none ↦ read_loop attempts (suc left) stored (said ++ complaints attempt)
  | some ch ↦ read_loop attempts left (stored ++ (ch ∷ [])) (said ++ complaints attempt)
]

unfoldable pub ser_hal_read :
    List Attempt → (count : ℕ) → Option (Bytes × List Bytes × List Attempt)
ser_hal_read attempts count = read_loop attempts count [] []

-- The bytes that arrive in a list of attempts.
unfoldable pub arriving : List Attempt → Bytes
arriving [] = []
arriving (attempt ∷ attempts) = elim attempt.byte [
  | none ↦ arriving attempts
  | some ch ↦ ch ∷ arriving attempts
]

arriving-nil : arriving [] ≡ []
unfolding arriving
arriving-nil = refl

arriving-lost :
    (attempt : Attempt) (attempts : List Attempt)
    → attempt.byte ≡ none
    → arriving (attempt ∷ attempts) ≡ arriving attempts
unfolding arriving
arriving-lost attempt attempts lost = rw (arriving, lost)

arriving-got :
    (attempt : Attempt) (attempts : List Attempt) (ch : ℕ)
    → attempt.byte ≡ some ch
    → arriving (attempt ∷ attempts) ≡ ch ∷ arriving attempts
unfolding arriving
arriving-got attempt attempts ch got = rw (arriving, got)

-- The loop returns: with the first bytes that arrive, and the later ones still to come.
record Reads (attempts : List Attempt) (left : ℕ) (stored : Bytes) (said : List Bytes)
    : Type 0 where
  all : List Bytes
  rest : List Attempt
  reads :
      read_loop attempts left stored said
      ≡ some (stored ++ take left (arriving attempts), all, rest)
  kept : arriving rest ≡ drop left (arriving attempts)

module _ (attempt : Attempt) (attempts : List Attempt) (left : ℕ) (stored : Bytes)
    (said : List Bytes) where
  Reads-lost :
      attempt.byte ≡ none
      → Reads attempts (suc left) stored (said ++ complaints attempt)
      → Reads (attempt ∷ attempts) (suc left) stored said
  unfolding read_loop
  Reads-lost lost r = record {
    all = r.all;
    rest = r.rest;
    reads = rw (arriving-lost attempt attempts lost, read_loop, lost) r.reads;
    kept = rw (arriving-lost attempt attempts lost) r.kept;
  }

  Reads-got :
      (ch : ℕ)
      → attempt.byte ≡ some ch
      → Reads attempts left (stored ++ (ch ∷ [])) (said ++ complaints attempt)
      → Reads (attempt ∷ attempts) (suc left) stored said
  unfolding read_loop
  Reads-got ch got r = record {
    all = r.all;
    rest = r.rest;
    reads = rw (arriving-got attempt attempts ch got, read_loop, got) (r.reads ∙ rw append_assoc);
    kept = rw (arriving-got attempt attempts ch got) r.kept;
  }

read_loop-Reads :
    (attempts : List Attempt) (left : ℕ) (stored : Bytes) (said : List Bytes)
    → left ≤ length (arriving attempts)
    → Reads attempts left stored said
unfolding read_loop
read_loop-Reads attempts zero stored said enough = record {
  all = said;
  rest = attempts;
  reads = rw append-nil;
  kept = refl;
}
read_loop-Reads [] (suc left) stored said enough = absurd (omega (arith, ap length arriving-nil))
read_loop-Reads (attempt ∷ attempts) (suc left) stored said enough =
    elim (Option-cases attempt.byte) [
      | inl lost ↦
          let fewer : suc left ≤ length (arriving attempts) =
            omega (arith, ap length (arriving-lost attempt attempts lost)) in
          Reads-lost attempt attempts left stored said lost
            (read_loop-Reads attempts (suc left) stored _ fewer)
      | inr (ch, got) ↦
          let fewer : left ≤ length (arriving attempts) =
            omega (arith, ap length (arriving-got attempt attempts ch got)) in
          Reads-got attempt attempts left stored said ch got
            (read_loop-Reads attempts left _ _ fewer)
    ]

-- When enough bytes arrive, ser_hal_read returns, however many reads fail before: it stores the
-- first `count` bytes in their order, and the bytes behind them are still to be read.
pub ser_hal_read-arriving :
    (attempts : List Attempt) (count : ℕ)
    → count ≤ length (arriving attempts)
    → (said : List Bytes) × (rest : List Attempt) × (ser_hal_read attempts count
        ≡ some (take count (arriving attempts), said, rest))
      × (arriving rest ≡ drop count (arriving attempts))
unfolding ser_hal_read
ser_hal_read-arriving attempts count enough =
    let r = read_loop-Reads attempts count [] [] enough in (r.all, r.rest, r.reads, r.kept)
