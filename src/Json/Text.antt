-- ===== src/Json/Text.antt =====
-- The string calls of the C library that cJSON/json_wrap.c and cJSON/manipulate_list.c use, on
-- blocks of bytes. Reading past the end of a block is `none`.
use clpsz_demos.Base.{
  ℕ, zero, suc, Option, none, some, [], ◌∷◌, Bytes, Bool, true, false, ltb, length, ◌==◌,
  if◌then◌else◌,
}
use clpsz_demos.Base.Maybe.{◌>>=◌}

unfoldable pub strlen : Bytes → Option ℕ
strlen [] = none
strlen (x ∷ xs) = if x == 0 then some 0 else do n ← strlen xs; some (suc n)

unfoldable pub zeros : ℕ → Bytes
zeros zero = []
zeros (suc n) = 0 ∷ zeros n

-- The `n` bytes that strncpy writes: the string, then zeros.
unfoldable pub strncpy : (source : Bytes) (n : ℕ) → Option Bytes
strncpy source zero = some []
strncpy [] (suc n) = none
strncpy (x ∷ xs) (suc n) =
    if x == 0 then some (zeros (suc n)) else do r ← strncpy xs n; some (x ∷ r)

-- `strncmp(s, t, length t) == 0` for a string `t` without its terminator.
unfoldable pub starts_with : (s t : Bytes) → Option Bool
starts_with s [] = some true
starts_with [] (y ∷ ys) = none
starts_with (x ∷ xs) (y ∷ ys) = if x == y then starts_with xs ys else some false

-- The text of a string in a block, which "%s" prints.
unfoldable pub text_of : Bytes → Option Bytes
text_of [] = none
text_of (x ∷ xs) = if x == 0 then some [] else do r ← text_of xs; some (x ∷ r)

-- sprintf into `char cmd_buf[256]`: the text, with room for the terminator.
unfoldable pub sprintf_256 : Bytes → Option Bytes
sprintf_256 text = if ltb (length text) 256 then some text else none
