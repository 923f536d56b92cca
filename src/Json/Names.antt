-- ===== src/Json/Names.antt =====
-- The names of object members, which cJSON compares without regard to case.
use clpsz_demos.Base.{ℕ, ◌+◌, [], ◌∷◌, Bytes, Bool, true, false, ltb, ◌==◌, ◌&&◌, if◌then◌else◌}

-- tolower, on ASCII.
unfoldable pub lower : ℕ → ℕ
lower c = if ltb 64 c && ltb c 91 then c + 32 else c

unfoldable pub same_name : Bytes → Bytes → Bool
same_name [] [] = true
same_name [] (y ∷ ys) = false
same_name (x ∷ xs) [] = false
same_name (x ∷ xs) (y ∷ ys) = (lower x == lower y) && same_name xs ys
