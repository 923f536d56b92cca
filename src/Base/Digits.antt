-- ===== src/Base/Digits.antt =====
-- The native bit operations recurse on binary digits with fuel. Here the fuel goes, and the digit
-- at a place of `bit_and` and `bit_or` is found.
use Prim.Native.Nat.{
  ℕ, zero, suc, ◌+◌, ◌-◌, ◌*◌, ◌/◌, ◌%◌, ◌^◌, ◌≤◌, ◌<◌, min, max, bit_and, bit_or, digits,
  bit_and-bitwise, bit_or-bitwise,
}
use mathlib.Core.Path.{◌≡◌, refl, ap, ◌∙◌}
use native.Mathlib.Omega.{arith}
use native.Mathlib.Nat.{pow-suc}

module _ (rest : ℕ → ℕ) (digit : ℕ → ℕ → ℕ) where
  -- One more unit of fuel changes nothing when there is fuel for the first number.
  digits-suc :
      (fuel x y : ℕ) → x ≤ fuel → digits rest digit (suc fuel) x y ≡ digits rest digit fuel x y
  digits-suc zero zero y enough = refl
  digits-suc zero (suc x) y enough = absurd (omega arith)
  digits-suc (suc fuel) zero y enough = refl
  digits-suc (suc fuel) (suc x) y enough = rw (digits-suc fuel (suc x / 2) (y / 2) (omega arith))

  digits-add :
      (more fuel all x y : ℕ)
      → x ≤ fuel
      → more + fuel ≡ all
      → digits rest digit all x y ≡ digits rest digit fuel x y
  digits-add zero fuel all x y enough sum =
      ap (λ f. digits rest digit f x y) {y = fuel} (omega arith)
  digits-add (suc more) fuel all x y enough sum =
      ap (λ f. digits rest digit f x y) {y = suc (more + fuel)} (omega arith)
      ∙ digits-suc (more + fuel) x y (omega arith)
      ∙ digits-add more fuel (more + fuel) x y enough refl

  -- The fuel that the native operation starts with is enough for the halves.
  pub digits-half :
      (x y : ℕ) → digits rest digit x (suc x / 2) y ≡ digits rest digit (suc x / 2) (suc x / 2) y
  digits-half x y =
      digits-add (x - suc x / 2) (suc x / 2) x (suc x / 2) y (omega arith) (omega arith)

bit_and_step : (x y : ℕ) → bit_and x y ≡ bit_and (x / 2) (y / 2) * 2 + min (x % 2) (y % 2)
bit_and_step zero y = omega (arith, bit_and-bitwise 0 (y / 2), bit_and-bitwise 0 y)
bit_and_step (suc x) y =
    let halves = digits-half (λ b. zero) min x (y / 2) in
    let native = bit_and-bitwise (suc x / 2) (y / 2) in
    omega (arith, halves, native, bit_and-bitwise (suc x) y)

bit_or_step : (x y : ℕ) → bit_or x y ≡ bit_or (x / 2) (y / 2) * 2 + max (x % 2) (y % 2)
bit_or_step zero y = omega (arith, bit_or-bitwise 0 (y / 2), bit_or-bitwise 0 y)
bit_or_step (suc x) y =
    let halves = digits-half (λ b. b) max x (y / 2) in
    let native = bit_or-bitwise (suc x / 2) (y / 2) in
    omega (arith, halves, native, bit_or-bitwise (suc x) y)

-- The binary digit at place `i`.
abbrev pub bit : (i x : ℕ) → ℕ
bit zero x = x % 2
bit (suc i) x = bit i (x / 2)

pub bit-lt : (i x : ℕ) → bit i x < 2
bit-lt zero x = omega arith
bit-lt (suc i) x = bit-lt i (x / 2)

pub bit-bit_and : (i x y : ℕ) → bit i (bit_and x y) ≡ min (bit i x) (bit i y)
bit-bit_and zero x y = omega (arith, bit_and_step x y)
bit-bit_and (suc i) x y =
    let half : bit_and x y / 2 ≡ bit_and (x / 2) (y / 2) = omega (arith, bit_and_step x y) in
    ap (bit i) half ∙ bit-bit_and i (x / 2) (y / 2)

pub bit-bit_or : (i x y : ℕ) → bit i (bit_or x y) ≡ max (bit i x) (bit i y)
bit-bit_or zero x y = omega (arith, bit_or_step x y)
bit-bit_or (suc i) x y =
    let half : bit_or x y / 2 ≡ bit_or (x / 2) (y / 2) = omega (arith, bit_or_step x y) in
    ap (bit i) half ∙ bit-bit_or i (x / 2) (y / 2)

-- The digits of a complement within `k` places.
pub bit_complement : (k i x : ℕ) → x < 2 ^ k → i < k → bit i (2 ^ k - 1 - x) ≡ 1 - bit i x
bit_complement zero i x small place = absurd (omega arith)
bit_complement (suc k) zero x small place = omega (arith, pow-suc 2 k)
bit_complement (suc k) (suc i) x small place =
    let half : (2 ^ suc k - 1 - x) / 2 ≡ 2 ^ k - 1 - x / 2 = omega (arith, pow-suc 2 k) in
    ap (bit i) half ∙ bit_complement k i (x / 2) (omega (arith, pow-suc 2 k)) (omega arith)
