-- ===== src/Uart/Block.antt =====
-- Blocks of memory as lists of bytes: reads and writes at an offset, `none` out of bounds.
use clpsz_demos.Base.{
  ℕ, zero, suc, ◌≤◌, ◌≡◌, refl, Option, none, some, [], ◌∷◌, ◌++◌, arith, length, drop, take, Bytes,
}
use clpsz_demos.Base.Maybe.{◌>>=◌}

-- memcpy into the block: the bytes `xs` at offset `off`.
unfoldable pub write_bytes : (off : ℕ) → (xs b : Bytes) → Option Bytes
write_bytes zero [] b = some b
write_bytes zero (x ∷ xs) [] = none
write_bytes zero (x ∷ xs) (y ∷ b) = do r ← write_bytes zero xs b; some (x ∷ r)
write_bytes (suc off) xs [] = none
write_bytes (suc off) xs (y ∷ b) = do r ← write_bytes off xs b; some (y ∷ r)

-- The `n` bytes at offset `off`.
unfoldable pub read_bytes : (off n : ℕ) → Bytes → Option Bytes
read_bytes zero zero b = some []
read_bytes zero (suc n) [] = none
read_bytes zero (suc n) (x ∷ b) = do r ← read_bytes zero n b; some (x ∷ r)
read_bytes (suc off) n [] = none
read_bytes (suc off) n (x ∷ b) = read_bytes off n b

pub write_bytes-append :
    (xs ys rest : Bytes) → length xs ≡ length ys → write_bytes 0 xs (ys ++ rest) ≡ some (xs ++ rest)
unfolding write_bytes
write_bytes-append [] [] rest h = refl
write_bytes-append [] (y ∷ ys) rest h = absurd (omega arith)
write_bytes-append (x ∷ xs) [] rest h = absurd (omega arith)
write_bytes-append (x ∷ xs) (y ∷ ys) rest h = rw (write_bytes-append xs ys rest (omega arith))

-- A write that fills the block leaves nothing of it.
pub write_bytes_whole : (xs ys : Bytes) → length xs ≡ length ys → write_bytes 0 xs ys ≡ some xs
unfolding write_bytes
write_bytes_whole [] [] h = refl
write_bytes_whole [] (y ∷ ys) h = absurd (omega arith)
write_bytes_whole (x ∷ xs) [] h = absurd (omega arith)
write_bytes_whole (x ∷ xs) (y ∷ ys) h = rw (write_bytes_whole xs ys (omega arith))

-- A write within the block is the new bytes and what lies behind them.
pub write_bytes_front :
    (xs b : Bytes) → length xs ≤ length b → write_bytes 0 xs b ≡ some (xs ++ drop (length xs) b)
unfolding write_bytes
write_bytes_front [] b h = refl
write_bytes_front (x ∷ xs) [] h = absurd (omega arith)
write_bytes_front (x ∷ xs) (y ∷ b) h = rw (write_bytes_front xs b (omega arith))

pub read_bytes-append : (xs rest : Bytes) → read_bytes 0 (length xs) (xs ++ rest) ≡ some xs
unfolding read_bytes
read_bytes-append [] rest = refl
read_bytes-append (x ∷ xs) rest = rw (read_bytes-append xs rest)

pub read_bytes_whole : (xs : Bytes) → read_bytes 0 (length xs) xs ≡ some xs
unfolding read_bytes
read_bytes_whole [] = refl
read_bytes_whole (x ∷ xs) = rw (read_bytes_whole xs)

pub read_bytes-take : (n : ℕ) (b : Bytes) → n ≤ length b → read_bytes 0 n b ≡ some (take n b)
unfolding read_bytes
read_bytes-take zero b h = refl
read_bytes-take (suc n) [] h = absurd (omega arith)
read_bytes-take (suc n) (x ∷ b) h = rw (read_bytes-take n b (omega arith))
