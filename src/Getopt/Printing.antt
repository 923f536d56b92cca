-- ===== src/Getopt/Printing.antt =====
-- What opt_long of linux/linux_getopt/main.c prints for the options of a command line, and opt
-- beside it.
use clpsz_demos.Base.{
  ℕ, true, ◌==◌, ◌||◌, if◌then◌else◌, Bool-cases, ==→≡, sym, ◌≡◌, ◌≢◌, refl, Option, none, some,
  List, [], ◌∷◌, ◌++◌, map, Bytes, codes, All, ≢→==, Option-cases, inl, inr, ap, ◌∙◌,
}
use clpsz_demos.Base.Maybe.{◌>>=◌}
use mathlib.Core.Path.{subst}
use clpsz_demos.Domain.{same_text}
use clpsz_demos.Getopt.{
  Line, letter, letter_value, name_value, Answer, long_options, opt_lines, opt, long_lines,
  opt_long_lines, opt_long, main, LongOption, optstring,
}
use clpsz_demos.Getopt.Documented.{Given, short, long, takes_value, row_named, answer_to, is_plain}

-- A line with a value, where there is one.
abbrev valued : (Bytes → Line) → Option Bytes → List Line
valued line none = []
valued line (some value) = line value ∷ []

-- The line of an option without a value; `--apple=x` is an error.
abbrev alone : Line → Option Bytes → List Line
alone line none = line ∷ []
alone line (some value) = []

-- `--bar` has a name and no value to print.
abbrev bare : Option Bytes → Option (List Line)
bare none = none
bare (some value) = some []

-- The lines for an option of the program.
unfoldable pub described : Given → Option (List Line)
described (short c value) =
    if c == b'a' || c == b'b'
    then some (letter c ∷ [])
    else if c == b'c' || c == b'd'
    then some (valued (letter_value c) value)
    else some []
described (long name value) =
    if same_text (codes "foo") name
    then some (valued (name_value (codes "foo")) value)
    else if same_text (codes "bar") name
    then bare value
    else if same_text (codes "apple") name
    then some (alone (letter b'a') value)
    else if same_text (codes "create") name
    then some (valued (letter_value b'c') value)
    else some []

abbrev pub described_all : List Given → Option (List Line)
described_all [] = some []
described_all (g ∷ gs) = do lines ← described g; rest ← described_all gs; some (lines ++ rest)

abbrev answered : Given → Answer
answered = answer_to optstring long_options

-- A plain option of the program.
abbrev pub IsPlain : Given → Type 0
IsPlain g = is_plain optstring long_options g ≡ true

-- getopt_long, as far as its manual says what it answers for the letters and the table of the
-- program.
abbrev pub IsDocumented : (getopt_long : Bytes → List LongOption → Given → Answer) → Type 0
IsDocumented getopt_long =
    (g : Given)
    → IsPlain g
    → getopt_long optstring long_options g ≡ answer_to optstring long_options g

Agrees : Given → Type 0
Agrees g = opt_long_lines (answered g) ≡ described g

the_letter :
    (c d : ℕ) (value : Option Bytes)
    → (c == d) ≡ true
    → Agrees (short d value)
    → Agrees (short c value)
the_letter c d value same = subst (λ e. Agrees (short e value)) (sym (==→≡ c d same))

c-Agrees : (value : Option Bytes) → Agrees (short b'c' value)
unfolding Agrees opt_long_lines answer_to optstring takes_value described
c-Agrees none = refl
c-Agrees (some value) = refl

d-Agrees : (value : Option Bytes) → Agrees (short b'd' value)
unfolding Agrees opt_long_lines answer_to optstring takes_value described
d-Agrees none = refl
d-Agrees (some value) = refl

letter-Agrees : (c : ℕ) (value : Option Bytes) → Agrees (short c value)
unfolding Agrees opt_long_lines answer_to optstring takes_value described
letter-Agrees c value = elim (Bool-cases (c == b'a')) [
  | inl is ↦ the_letter c b'a' value is refl
  | inr not_a ↦ elim (Bool-cases (c == b'b')) [
    | inl is ↦ the_letter c b'b' value is refl
    | inr not_b ↦ elim (Bool-cases (c == b'c')) [
      | inl is ↦ the_letter c b'c' value is (c-Agrees value)
      | inr not_c ↦ elim (Bool-cases (c == b'd')) [
        | inl is ↦ the_letter c b'd' value is (d-Agrees value)
        | inr not_d ↦ elim (Bool-cases (c == b':')) [
          | inl is ↦ the_letter c b':' value is refl
          | inr not_colon ↦ rw (not_a, not_b, not_c, not_d, not_colon) refl
        ]
      ]
    ]
  ]
]

name-Agrees : (name : Bytes) (value : Option Bytes) → Agrees (long name value)
unfolding Agrees opt_long_lines long_lines answer_to row_named long_options described
name-Agrees name none = elim (Bool-cases (same_text (codes "foo") name)) [
  | inl is ↦ rw is refl
  | inr not_foo ↦ elim (Bool-cases (same_text (codes "bar") name)) [
    | inl is ↦ rw (not_foo, is) refl
    | inr not_bar ↦ elim (Bool-cases (same_text (codes "apple") name)) [
      | inl is ↦ rw (not_foo, not_bar, is) refl
      | inr not_apple ↦ elim (Bool-cases (same_text (codes "create") name)) [
        | inl is ↦ rw (not_foo, not_bar, not_apple, is) refl
        | inr not_create ↦ rw (not_foo, not_bar, not_apple, not_create) refl
      ]
    ]
  ]
]
name-Agrees name (some value) = elim (Bool-cases (same_text (codes "foo") name)) [
  | inl is ↦ rw is refl
  | inr not_foo ↦ elim (Bool-cases (same_text (codes "bar") name)) [
    | inl is ↦ rw (not_foo, is) refl
    | inr not_bar ↦ elim (Bool-cases (same_text (codes "apple") name)) [
      | inl is ↦ rw (not_foo, not_bar, is) refl
      | inr not_apple ↦ elim (Bool-cases (same_text (codes "create") name)) [
        | inl is ↦ rw (not_foo, not_bar, not_apple, is) refl
        | inr not_create ↦ rw (not_foo, not_bar, not_apple, not_create) refl
      ]
    ]
  ]
]

opt_long_lines-described : (g : Given) → opt_long_lines (answered g) ≡ described g
unfolding Agrees
opt_long_lines-described (short c value) = letter-Agrees c value
opt_long_lines-described (long name value) = name-Agrees name value

opt_long-described_all :
    (gs : List Given) → opt_long (map answered gs) ≡ (described_all gs >>= λ lines. some (0, lines))
unfolding opt_long
opt_long-described_all [] = refl
opt_long-described_all (g ∷ gs) = elim (Option-cases (described g)) [
  | inl e ↦ rw (opt_long-described_all gs, opt_long_lines-described g, e)
  | inr (lines, e) ↦ elim (Option-cases (described_all gs)) [
    | inl d ↦ rw (opt_long-described_all gs, opt_long_lines-described g, e, d)
    | inr (rest, d) ↦ rw (opt_long-described_all gs, opt_long_lines-described g, e, d)
  ]
]

map-answered :
    (getopt_long : Bytes → List LongOption → Given → Answer)
    → IsDocumented getopt_long
    → (gs : List Given) → All IsPlain gs
    → map (getopt_long optstring long_options) gs ≡ map answered gs
map-answered getopt_long documented [] plain = refl
map-answered getopt_long documented (g ∷ gs) (plain, more) =
    rw (documented g plain, map-answered getopt_long documented gs more)

-- For any options with their whole names, when getopt_long answers them as its manual says for the
-- program's letters and table, main prints in their order the letter of -a, -b and --apple, the
-- letter and the value of -c, -d and --create, the name and the value of --foo, and nothing for an
-- option that is unknown, lacks its value or has one that it does not take, and returns 0; with a
-- --bar without a value among them it is undefined.
pub main-described_all :
    (getopt_long : Bytes → List LongOption → Given → Answer)
    → IsDocumented getopt_long
    → (gs : List Given) → All IsPlain gs
    → main (map (getopt_long optstring long_options) gs)
      ≡ (described_all gs >>= λ lines. some (0, lines))
unfolding main
main-described_all getopt_long documented gs plain =
    ap opt_long (map-answered getopt_long documented gs plain) ∙ opt_long-described_all gs

opt_long_lines-opt_lines :
    (answer : Answer) → answer.opt ≢ 0 → opt_long_lines answer ≡ opt_lines answer
unfolding opt_long_lines opt_lines
opt_long_lines-opt_lines answer other = rw (≢→== answer.opt 0 other)

-- When no answer is 0, opt_long prints what opt prints.
pub opt_long-opt :
    (answers : List Answer)
    → All (λ answer. answer.opt ≢ 0) answers
    → opt_long answers ≡ (opt answers >>= λ lines. some (0, lines))
unfolding opt_long opt
opt_long-opt [] none_left = refl
opt_long-opt (answer ∷ answers) (head, tail) = elim (Option-cases (opt_lines answer)) [
  | inl e ↦ rw (opt_long_lines-opt_lines answer head, e)
  | inr (lines, e) ↦ elim (Option-cases (opt answers)) [
    | inl d ↦ rw (opt_long_lines-opt_lines answer head, opt_long-opt answers tail, e, d)
    | inr (rest, d) ↦ rw (opt_long_lines-opt_lines answer head, opt_long-opt answers tail, e, d)
  ]
]
