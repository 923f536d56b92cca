-- ===== src/Inventory.antt =====
-- linux/linux_libconfig/main.c: the store's name, and the books and movies of its inventory. The
-- library is an interface; a `config_setting_t *` is a setting, and NULL is `none`.
pub mod Listing
mod Tests
use clpsz_demos.Base.{
  ℕ, zero, suc, ◌+◌, ◌<◌, ◌≡◌, Option, none, some, List, [], ◌∷◌, ◌++◌, Bytes, codes,
}
use clpsz_demos.Base.Maybe.{◌>>=◌}

pub record Config : Type 1 where
  pub Setting : Type 0
  -- The values of C's double and int.
  pub Double : Type 0
  pub Int : Type 0
  -- The root of the file, or the error that is reported.
  pub read_file : Bytes → Option Setting
  pub error : Bytes → Bytes
  pub root_string : Setting → Bytes → Option Bytes
  pub root_lookup : Setting → Bytes → Option Setting
  pub setting_length : Setting → ℕ
  pub get_elem : Setting → ℕ → Option Setting
  pub lookup_string : Setting → Bytes → Option Bytes
  pub lookup_float : Setting → Bytes → Option Double
  pub lookup_int : Setting → Bytes → Option Int

-- A line that is printed, as what its format is given.
pub data Line (C : Config) : Type 0 where
  report : Bytes → Line C
  store_name : Bytes → Line C
  no_name : Line C
  heading : (second : Bytes) → Line C
  row : (title second : Bytes) → C.Double → C.Int → Line C
  empty_line : Line C

-- EXIT_SUCCESS and EXIT_FAILURE.
pub data Exit : Type 0 where
  success failure : Exit

module _ (C : Config) where
  -- The lookups of one record, and the record's line when all fields are present. A record that
  -- is NULL is undefined, and `config_setting_get_elem` gives none below the length.
  unfoldable pub record_line : (second : Bytes) → C.Setting → Option (Line C)
  record_line second book = do
    title ← C.lookup_string book (codes "title")
    author ← C.lookup_string book second
    price ← C.lookup_float book (codes "price")
    qty ← C.lookup_int book (codes "qty")
    some (row title author price qty)

  abbrev pub optional_line : Option (Line C) → List (Line C)
  optional_line none = []
  optional_line (some line) = line ∷ []

  -- `for(i = 0; i < count; ++i)`, the same loop for books and for movies.
  unfoldable pub list_records :
      (second : Bytes) (setting : C.Setting) (i left : ℕ) → Option (List (Line C))
  list_records second setting i zero = some []
  list_records second setting i (suc left) = do
    book ← C.get_elem setting i
    rest ← list_records second setting (i + 1) left
    some (optional_line (record_line second book) ++ rest)

  unfoldable pub list_section :
      (second : Bytes) (title : Bytes) → Option C.Setting → Option (List (Line C))
  list_section second title none = some []
  list_section second title (some setting) = do
    rows ← list_records second setting 0 (C.setting_length setting)
    some (heading title ∷ rows ++ empty_line ∷ [])

  abbrev pub name_line : Option Bytes → Line C
  name_line none = no_name
  name_line (some str) = store_name str

  -- `none` is undefined behaviour.
  unfoldable pub main : Option (Exit × List (Line C))
  main = elim (C.read_file (codes "example.cfg")) [
    | none ↦ some (failure, report (C.error (codes "example.cfg")) ∷ [])
    | some cfg ↦ do
      books ←
          list_section (codes "author") (codes "AUTHOR")
            (C.root_lookup cfg (codes "inventory.books"))
      movies ←
          list_section (codes "media") (codes "MEDIA")
            (C.root_lookup cfg (codes "inventory.movies"))
      some (success, name_line (C.root_string cfg (codes "name")) ∷ books ++ movies)
  ]
