-- ===== src/Getopt/Tests.antt =====
-- The command lines of the comments, and an option of the table that getopt_long cannot answer.
use clpsz_demos.Base.{refl, All, false, ◌≡◌, none, some, List, [], ◌∷◌, ◌++◌, map, codes, arith}
use clpsz_demos.Base.Maybe.{◌>>=◌}
use clpsz_demos.Getopt.{
  Answer, letter, letter_value, name_value, opt, opt_long, opt_long_lines, long_lines, long_options,
  optstring, main,
}
use clpsz_demos.Domain.{same_text}
use clpsz_demos.Getopt.Documented.{
  Given, short, long, is_plain, is_abbreviated, cuts, takes_value, row_named, answer_to,
}
use clpsz_demos.Getopt.Printing.{IsPlain, described_all, main-described_all, opt_long-opt}

abbrev line : List Given
line =
    short b'a' none
    ∷ short b'b' none
    ∷ short b'c' (some (codes "foo"))
    ∷ long (codes "foo") (some (codes "foo"))
    ∷ long (codes "apple") none
    ∷ long (codes "create") (some (codes "foo"))
    ∷ long (codes "apple") (some (codes "x"))
    ∷ short b'x' none
    ∷ []

abbrev undefined_line : List Given
undefined_line = line ++ long (codes "bar") none ∷ []

undefined_line-IsPlain : All IsPlain undefined_line
unfolding is_plain is_abbreviated cuts takes_value long_options optstring
undefined_line-IsPlain = (refl, (refl, (refl, (refl, (refl, (refl, (refl, (refl, (refl, tt)))))))))

main-described_all_example :
    main (map (answer_to optstring long_options) undefined_line)
    ≡ (described_all undefined_line >>= λ lines. some (0, lines))
main-described_all_example =
    main-described_all answer_to (λ g plain. refl) undefined_line undefined_line-IsPlain

main_run :
    main (map (answer_to optstring long_options) line)
    ≡ some (
      0,
      letter 97
          ∷ letter 98
          ∷ letter_value 99 (codes "foo")
          ∷ name_value (codes "foo") (codes "foo")
          ∷ letter 97
          ∷ letter_value 99 (codes "foo")
          ∷ [],
    )
unfolding main opt_long opt_long_lines long_lines answer_to row_named takes_value long_options
    optstring same_text
main_run = refl

-- `--app` is the beginning of a name.
abbreviated : is_plain optstring long_options (long (codes "app") none) ≡ false
unfolding is_plain is_abbreviated cuts long_options
abbreviated = refl

abbrev answers : List Answer
answers =
    record { opt = 97; optarg = none; long_index = none }
    ∷ record { opt = 99; optarg = some (codes "bar"); long_index = none }
    ∷ []

opt_long-opt_example : opt_long answers ≡ (opt answers >>= λ lines. some (0, lines))
opt_long-opt_example = opt_long-opt answers (omega arith, (omega arith, tt))
