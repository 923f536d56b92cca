-- ===== src/Getopt/Documented.antt =====
-- What getopt_long(3), which linux/linux_getopt/main.c calls, documents of its answers.
use clpsz_demos.Base.{
  ℕ, ◌+◌, Bool, true, false, not, ◌==◌, ◌||◌, if◌then◌else◌, Option, none, some, List, [], ◌∷◌,
  Bytes,
}
use clpsz_demos.Domain.{same_text}
use clpsz_demos.Getopt.{Answer, LongOption}

-- An option as it is written on the command line, by its letter or its name, and the value that
-- is written with it, or in the next word where it takes one.
pub data Given : Type 0 where
  short : (letter_code : ℕ) (value : Option Bytes) → Given
  long : (name : Bytes) (value : Option Bytes) → Given

abbrev colon_first : Bytes → Bool
colon_first [] = false
colon_first (c ∷ cs) = c == b':'

-- Whether the letters name an option, and then whether it takes a value.
unfoldable pub takes_value : (c : ℕ) (letters : Bytes) → Option Bool
takes_value c [] = none
takes_value c (x ∷ xs) =
    let later = takes_value c xs in if c == x then some (colon_first xs) else later

abbrev has_name : Option Bytes → Bytes → Bool
has_name none text = false
has_name (some name) text = same_text name text

-- The first row with a name, and its index.
unfoldable pub row_named : (text : Bytes) (i : ℕ) → List LongOption → Option (ℕ × LongOption)
row_named text i [] = none
row_named text i (row ∷ rows) =
    let later = row_named text (i + 1) rows in
    if has_name row.name text then some (i, row) else later

-- '?', for an unknown option, a value that is missing and a value that is not taken.
abbrev question : Answer
question = record { opt = b'?'; optarg = none; long_index = none }

abbrev short_answer : (c : ℕ) → (takes : Option Bool) → (value : Option Bytes) → Answer
short_answer c none value = question
short_answer c (some true) none = question
short_answer c (some true) (some value) = record { opt = c; optarg = some value; long_index = none }
short_answer c (some false) value = record { opt = c; optarg = none; long_index = none }

abbrev row_answer : (i val : ℕ) → (has_arg : Bool) → (value : Option Bytes) → Answer
row_answer i val true none = question
row_answer i val true (some value) = record { opt = val; optarg = some value; long_index = some i }
row_answer i val false none = record { opt = val; optarg = none; long_index = some i }
row_answer i val false (some value) = question

abbrev long_answer : Option (ℕ × LongOption) → (value : Option Bytes) → Answer
long_answer none value = question
long_answer (some (i, row)) value = row_answer i row.val row.has_arg value

-- What getopt_long(3) documents that it answers, from the letters and the table that it is given.
unfoldable pub answer_to : (letters : Bytes) → List LongOption → Given → Answer
unfolding takes_value row_named
answer_to letters rows (short c value) =
    if c == b':' then question else short_answer c (takes_value c letters) value
answer_to letters rows (long name value) = long_answer (row_named name 0 rows) value

-- Whether `text` begins a name and is not the whole of it.
unfoldable pub cuts : (text name : Bytes) → Bool
cuts text [] = false
cuts [] (y ∷ ys) = true
cuts (x ∷ xs) (y ∷ ys) = let rest = cuts xs ys in if x == y then rest else false

abbrev row_cut : (text : Bytes) → LongOption → Bool
row_cut text row = elim row.name [ none ↦ false | some name ↦ cuts text name ]

unfoldable pub is_abbreviated : (text : Bytes) → List LongOption → Bool
is_abbreviated text [] = false
is_abbreviated text (row ∷ rows) = row_cut text row || is_abbreviated text rows

abbrev takes : Option Bool → Bool
takes none = false
takes (some b) = b

-- An option that is one word of its own: a letter with a value takes one, else more letters are
-- written behind it; and a name is not the beginning of a name of the table.
unfoldable pub is_plain : (letters : Bytes) → List LongOption → Given → Bool
unfolding takes_value is_abbreviated
is_plain letters rows (short c none) = true
is_plain letters rows (short c (some value)) = takes (takes_value c letters)
is_plain letters rows (long name value) = not (is_abbreviated name rows)
