-- ===== src/Base/Tables.antt =====
-- A test that holds at every number below a bound, by evaluation.
use Prim.Native.Nat.{ℕ, zero, suc, ◌<◌}
use mathlib.Core.Path.{◌≡◌}
use mathlib.Core.Bool.{Bool, true, false}
use native.Mathlib.Omega.{arith}
use clpsz_demos.Base.Tests.{if◌then◌else◌}

unfoldable pub holds_up_to : (test : ℕ → Bool) (bound : ℕ) → Bool
holds_up_to test zero = true
holds_up_to test (suc bound) = if test bound then holds_up_to test bound else false

pub holds_at :
    (test : ℕ → Bool) (bound : ℕ)
    → holds_up_to test bound ≡ true
    → (c : ℕ) → c < bound
    → test c ≡ true
unfolding holds_up_to
holds_at test zero all c small = absurd (omega arith)
holds_at test (suc bound) all c small =
    ground (arith, λ (rest : holds_up_to test bound ≡ true). holds_at test bound rest c)
