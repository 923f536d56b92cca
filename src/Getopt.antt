-- ===== src/Getopt.antt =====
-- linux/linux_getopt/main.c: the two loops over the options. The answers of getopt(3) and
-- getopt_long(3) until -1 are arguments.
pub mod Documented
pub mod Printing
mod Tests
use clpsz_demos.Base.{
  ℕ, Option, none, some, List, [], ◌∷◌, ◌++◌, Bytes, Bool, true, false, ◌==◌, if◌then◌else◌, codes,
  get_elem?,
}
use clpsz_demos.Base.Maybe.{◌>>=◌}

-- A line that is printed, as what its format is given.
pub data Line : Type 0 where
  letter : ℕ → Line
  letter_value : ℕ → Bytes → Line
  name_value : (name value : Bytes) → Line
  default_line : ℕ → Line

-- `opt` and `optarg`, where NULL is none, and `long_index`, which only a long option sets.
pub record Answer : Type 0 where
  pub opt : ℕ
  pub optarg : Option Bytes
  pub long_index : Option ℕ

-- struct option, with `flag` NULL. The last row has no name.
pub record LongOption : Type 0 where
  pub name : Option Bytes
  pub has_arg : Bool
  pub val : ℕ

unfoldable pub long_options : List LongOption
long_options =
    record { name = some (codes "foo"); has_arg = true; val = 0 }
    ∷ record { name = some (codes "bar"); has_arg = false; val = 0 }
    ∷ record { name = some (codes "apple"); has_arg = false; val = 97 }
    ∷ record { name = some (codes "create"); has_arg = true; val = 99 }
    ∷ record { name = none; has_arg = false; val = 0 }
    ∷ []

-- The letters of the short options; a colon stands behind one that takes a value.
unfoldable pub optstring : Bytes
optstring = codes "abc:d:"

-- `none` is undefined behaviour: `%s` of NULL.
abbrev pub with_value : ℕ → Option Bytes → Option (List Line)
with_value c none = none
with_value c (some value) = some (letter_value c value ∷ [])

-- The switch of opt.
unfoldable pub opt_lines : Answer → Option (List Line)
opt_lines answer =
    if answer.opt == 97
    then some (letter answer.opt ∷ [])
    else if answer.opt == 98
    then some (letter answer.opt ∷ [])
    else if answer.opt == 99
    then with_value answer.opt answer.optarg
    else if answer.opt == 100
    then with_value answer.opt answer.optarg
    else if answer.opt == 63
    then some []
    else some (default_line answer.opt ∷ [])

-- What is printed; the function has no return statement.
unfoldable pub opt : List Answer → Option (List Line)
opt [] = some []
opt (answer ∷ answers) = do lines ← opt_lines answer; rest ← opt answers; some (lines ++ rest)

-- `case 0`. `long_index` is not initialised.
unfoldable pub long_lines : Answer → Option (List Line)
long_lines answer = do
  index ← answer.long_index
  row ← get_elem? long_options index
  name ← row.name
  value ← answer.optarg
  some (name_value name value ∷ [])

-- The switch of opt_long.
unfoldable pub opt_long_lines : Answer → Option (List Line)
opt_long_lines answer =
    if answer.opt == 0
    then long_lines answer
    else if answer.opt == 97
    then some (letter answer.opt ∷ [])
    else if answer.opt == 98
    then some (letter answer.opt ∷ [])
    else if answer.opt == 99
    then with_value answer.opt answer.optarg
    else if answer.opt == 100
    then with_value answer.opt answer.optarg
    else if answer.opt == 63
    then some []
    else some (default_line answer.opt ∷ [])

unfoldable pub opt_long : List Answer → Option (ℕ × List Line)
opt_long [] = some (0, [])
opt_long (answer ∷ answers) = do
  lines ← opt_long_lines answer
  rest ← opt_long answers
  some (rest.0, lines ++ rest.1)

unfoldable pub main : List Answer → Option (ℕ × List Line)
main answers = opt_long answers
