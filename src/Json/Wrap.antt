-- ===== src/Json/Wrap.antt =====
-- cJSON/json_wrap.c: strings without their quotes, and JSON files.
use clpsz_demos.Base.{
  ℕ, ◌+◌, ◌-◌, Option, none, some, [], ◌∷◌, ◌++◌, Bytes, Bool, true, false, ◌&&◌, ◌==◌, ltb, length,
  set, drop, if◌then◌else◌,
}
use clpsz_demos.Base.Maybe.{◌>>=◌}
use clpsz_demos.Json.{CJson}
use clpsz_demos.Json.Text.{strlen, strncpy}

-- The machine: whether malloc succeeds for a size, what a block's last byte holds when malloc
-- returns it, and which files fopen opens for writing.
pub record System : Type 0 where
  pub room : ℕ → Bool
  pub stale : ℕ
  pub writable : Bytes → Bool

-- The files by name.
abbrev pub Files : Type 0
Files = Bytes → Option Bytes

unfoldable pub same_bytes : Bytes → Bytes → Bool
same_bytes [] [] = true
same_bytes [] (y ∷ ys) = false
same_bytes (x ∷ xs) [] = false
same_bytes (x ∷ xs) (y ∷ ys) = if x == y then same_bytes xs ys else false

unfoldable pub update : Files → (name content : Bytes) → Files
update files name content other = if same_bytes other name then some content else files other

-- The text and its terminator lie in a block; writing at `len - 1` needs `len > 0`, and strncpy
-- a block to write to.
unfoldable pub without_quotes : System → (text : Bytes) → Option (Option Bytes)
without_quotes sys text = do
  len ← strlen (text ++ (0 ∷ []))
  let ori_str = set (text ++ (0 ∷ [])) (len - 1) 0
  new_str ← strncpy (drop 1 ori_str) (len - 1)
  if ltb 0 len && sys.room (len - 1) then some (some new_str) else none

module _ (J : CJson) (sys : System) where
  -- The outer `none` is undefined behaviour, the inner one a NULL result.
  unfoldable pub print_unquote_string : Option J.Value → Option (Option Bytes)
  print_unquote_string none = none
  print_unquote_string (some str_obj) =
      if J.is_string str_obj
      then (do text ← J.print_unformatted str_obj; without_quotes sys text)
      else some none

  -- The block has `len + 1` bytes, of which fread sets `len`.
  unfoldable pub get_str_from_file : Files → (filename : Bytes) → Option Bytes
  get_str_from_file files filename = do
    content ← files filename
    if sys.room (length content + 1) then some (content ++ (sys.stale ∷ [])) else none

  unfoldable pub get_json_from_file : Files → (filename : Bytes) → Option J.Value
  get_json_from_file files filename = do
    file_str ← get_str_from_file files filename
    J.parse file_str

  unfoldable pub write_json_to_file : (root : Option J.Value) → (filename : Bytes) → Files → Files
  write_json_to_file none filename files = files
  write_json_to_file (some root) filename files = elim (J.print root) [
    | none ↦ files
    | some json_str ↦ if sys.writable filename then update files filename json_str else files
  ]
