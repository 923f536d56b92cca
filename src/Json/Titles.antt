-- ===== src/Json/Titles.antt =====
-- The titles of categories, by which simplify_category of cJSON/manipulate_list.c sorts them.
use clpsz_demos.Base.{
  ◌≡◌, refl, some, [], ◌∷◌, ◌++◌, Bytes, Bool, true, false, ◌==◌, if◌then◌else◌, ≢→==, Bool-cases,
  inl, inr, sym,
}
use clpsz_demos.Json.Lists.{app_utf8, game_utf8}
use clpsz_demos.Json.Text.{starts_with}
use clpsz_demos.Json.Unquote.{NoZero}

-- Whether a text begins with another.
abbrev pub is_prefix : (front text : Bytes) → Bool
is_prefix [] ys = true
is_prefix (x ∷ xs) [] = false
is_prefix (x ∷ xs) (y ∷ ys) = if y == x then is_prefix xs ys else false

pub data Kind : Type 0 where
  game app other : Kind

abbrev pub kind_of : (title : Bytes) → Kind
kind_of title =
    if is_prefix game_utf8 title then game else if is_prefix app_utf8 title then app else other

-- strncmp against a text without a zero, of which it needs the length.
pub starts_with-is_prefix :
    (t front : Bytes) → NoZero front → starts_with (t ++ 0 ∷ []) front ≡ some (is_prefix front t)
unfolding starts_with
starts_with-is_prefix [] [] clean = refl
starts_with-is_prefix [] (y ∷ ys) clean = rw (≢→== 0 y λ e. clean.0 (sym e))
starts_with-is_prefix (x ∷ xs) [] clean = refl
starts_with-is_prefix (x ∷ xs) (y ∷ ys) clean =
    rw (starts_with-is_prefix xs ys clean.1)
      (elim (Bool-cases (x == y)) [ inl e ↦ rw e | inr e ↦ rw e ])
