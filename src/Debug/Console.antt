-- ===== src/Debug/Console.antt =====
-- What _daemon_printf gives to the shell.
use clpsz_demos.Base.{
  ℕ, zero, suc, ◌+◌, ◌-◌, ◌*◌, ◌/◌, ◌≤◌, ◌<◌, ◌≡◌, ◌≢◌, refl, ap, ◌∙◌, some, none, List, [], ◌∷◌,
  ◌++◌, Bytes, codes, All, All-append, length, length-append, append_assoc, ltb, ◌==◌,
  if◌then◌else◌, ≢→==, lt→ltb, le→ltb, ltb→lt, ltb→le, Bool, true, false, not, ◌&&◌, ==→≢, sym,
  Bool-cases, inl, inr, arith,
}
use mathlib.Core.Path.{subst}
use clpsz_demos.Json.Unquote.{NoZero, text_of-text}
use clpsz_demos.Debug.Levels.{
  Output, decimal, decimal_loop, sprintf_512, command_text, daemon_printf,
}

-- The number that a text of decimal digits shows behind one that was read.
abbrev value : (read : ℕ) → Bytes → ℕ
value n [] = n
value n (c ∷ cs) = value (n * 10 + (c - b'0')) cs

decimal_loop-value :
    (rounds n : ℕ) (text : Bytes) → n < rounds → value 0 (decimal_loop rounds n text) ≡ value n text
unfolding decimal_loop
decimal_loop-value zero n text enough = absurd (omega arith)
decimal_loop-value (suc rounds) n text enough = elim (Bool-cases (ltb n 10)) [
  | inl below ↦ rw below (ap (λ v. value v text) (omega arith))
  | inr above ↦ rw above (
      decimal_loop-value rounds (n / 10) _ (omega (arith, ltb→le n 10 above))
      ∙ ap (λ v. value v text) (omega arith))
]

-- The rounds of `decimal` are enough for all its digits.
pub decimal-value : (n : ℕ) → value 0 (decimal n) ≡ n
unfolding decimal
decimal-value n = decimal_loop-value (suc n) n [] (omega arith)

-- A text that the shell takes as one line.
abbrev pub OneLine : Bytes → Type 0
OneLine = All (λ c. c ≢ b'\n')

abbrev pub line_onto : ℕ → List Bytes → List Bytes
line_onto c [] = (c ∷ []) ∷ []
line_onto c (l ∷ ls) = (c ∷ l) ∷ ls

-- The lines of a script.
unfoldable pub lines : Bytes → List Bytes
lines [] = [] ∷ []
lines (c ∷ cs) = let rest = lines cs in if c == b'\n' then [] ∷ rest else line_onto c rest

lines-OneLine : (xs : Bytes) → OneLine xs → lines xs ≡ xs ∷ []
unfolding lines
lines-OneLine [] one = refl
lines-OneLine (x ∷ xs) one = rw (≢→== x b'\n' one.0, lines-OneLine xs one.1)

lines-newline : (xs ys : Bytes) → OneLine xs → lines (xs ++ (b'\n' ∷ ys)) ≡ xs ∷ lines ys
unfolding lines
lines-newline [] ys one = refl
lines-newline (x ∷ xs) ys one = rw (≢→== x b'\n' one.0, lines-newline xs ys one.1)

abbrev pub avoids : (v : ℕ) → Bytes → Bool
avoids v [] = true
avoids v (x ∷ xs) = not (x == v) && avoids v xs

pub avoids-All : (v : ℕ) (xs : Bytes) → avoids v xs ≡ true → All (λ c. c ≢ v) xs
avoids-All v [] fine = tt
avoids-All v (x ∷ xs) fine =
    let here : (x == v) ≡ false = ground arith in (==→≢ x v here, avoids-All v xs (ground arith))

abbrev pub newline : Bytes
newline = b'\n' ∷ []

newline_clean : NoZero newline
newline_clean = avoids-All 0 newline refl

abbrev pub after : Bytes
after = codes " > /dev/tty1 2>&1"

echo_clean : NoZero (codes "echo ")
echo_clean = avoids-All 0 (codes "echo ") refl

after_clean : NoZero after
after_clean = avoids-All 0 after refl

echo_line : OneLine (codes "echo ")
echo_line = avoids-All b'\n' (codes "echo ") refl

after_line : OneLine after
after_line = avoids-All b'\n' after refl

-- The two sides of the text in the command.
command_parts : (text : Bytes) → command_text text ≡ codes "echo " ++ (text ++ after)
unfolding command_text
command_parts text = append_assoc (codes "echo ") text after

length-command_text : (text : Bytes) → length (command_text text) ≡ length text + 22
length-command_text text = ap length (command_parts text) ∙ omega (arith, length-append text after)

command_text-NoZero : (text : Bytes) → NoZero text → NoZero (command_text text)
command_text-NoZero text clean =
    subst NoZero (sym (command_parts text))
      (All-append _ (codes "echo ") _ echo_clean (All-append _ text after clean after_clean))

sprintf_512-fits : (text : Bytes) → length text < 512 → sprintf_512 text ≡ some (text ++ (0 ∷ []))
unfolding sprintf_512
sprintf_512-fits text fits = rw (lt→ltb _ _ fits)

sprintf_512-full : (text : Bytes) → 512 ≤ length text → sprintf_512 text ≡ none
unfolding sprintf_512
sprintf_512-full text full = rw (le→ltb _ _ full)

abbrev pub given : Bytes → Output → Output
given command out = record out { commands = out.commands ++ (command ∷ []) }

daemon_printf-fits :
    (text : Bytes) (out : Output)
    → NoZero text
    → length text ≤ 489
    → daemon_printf text out ≡ some (given (command_text text) out)
unfolding daemon_printf
daemon_printf-fits text out clean fits = rw (
  sprintf_512-fits text (omega arith),
  text_of-text text [] clean,
  sprintf_512-fits (command_text text) (omega (arith, length-command_text text)),
  text_of-text (command_text text) [] (command_text-NoZero text clean),
)

daemon_printf-full :
    (text : Bytes) (out : Output) → NoZero text → 489 < length text → daemon_printf text out ≡ none
unfolding daemon_printf
daemon_printf-full text out clean full = elim (Bool-cases (ltb (length text) 512)) [
  | inl small ↦
      rw
        (
          sprintf_512-fits text (ltb→lt _ _ small),
          text_of-text text [] clean,
          sprintf_512-full (command_text text) (omega (arith, length-command_text text)),
        )
        refl
  | inr large ↦ rw (sprintf_512-full text (ltb→le _ _ large)) refl
]

daemon_printf-bounds :
    (text : Bytes) (out : Output)
    → NoZero text
    → daemon_printf text out
      ≡ (if ltb (length text) 490 then some (given (command_text text) out) else none)
daemon_printf-bounds text out clean = elim (Bool-cases (ltb (length text) 490)) [
  | inl small ↦
      rw small (daemon_printf-fits text out clean (omega (arith, ltb→lt (length text) 490 small)))
  | inr large ↦
      rw large (daemon_printf-full text out clean (omega (arith, ltb→le (length text) 490 large)))
]

-- For a text of one line without a NUL: _daemon_printf gives the shell one line, the echo of the
-- text to the console, if the text has at most 489 bytes, and else writes past a buffer. For the
-- text with a newline behind it, the limit counts the newline, and the shell gets two lines: an
-- echo of the text that is not redirected to the console, and the redirection of nothing.
pub daemon_printf-lines :
    (text : Bytes) (out : Output)
    → NoZero text
    → OneLine text
    → (daemon_printf text out
        ≡ (if ltb (length text) 490 then some (given (command_text text) out) else none))
      × (lines (command_text text) ≡ command_text text ∷ [])
      × (daemon_printf (text ++ newline) out ≡ (
          if ltb (length text + 1) 490
          then some (given (command_text (text ++ newline)) out)
          else none))
      × (lines (command_text (text ++ newline)) ≡ (codes "echo " ++ text) ∷ after ∷ [])
daemon_printf-lines text out clean one = (
  daemon_printf-bounds text out clean,
  lines-OneLine (command_text text) (
      subst OneLine (sym (command_parts text))
        (All-append _ (codes "echo ") _ echo_line (All-append _ text after one after_line))),
  daemon_printf-bounds (text ++ newline) out (All-append _ text newline clean newline_clean)
      ∙ ap (λ n. if ltb n 490 then some (given (command_text (text ++ newline)) out) else none)
          (omega (arith, length-append text newline)),
  ap lines
        (command_parts (text ++ newline) ∙ ap (codes "echo " ++◌) (append_assoc text newline after))
      ∙ lines-newline (codes "echo " ++ text) after
          (All-append _ (codes "echo ") text echo_line one)
      ∙ ap ((codes "echo " ++ text) ∷◌) (lines-OneLine after after_line),
)
