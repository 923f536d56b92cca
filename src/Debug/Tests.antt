-- ===== src/Debug/Tests.antt =====
-- What debug_tools/main.c prints and gives to the shell, and the theorems at small texts.
use clpsz_demos.Base.{
  ℕ, ◌+◌, ◌≡◌, refl, some, none, [], ◌∷◌, ◌++◌, Bytes, codes, length, ltb, if◌then◌else◌, Option,
  List, arith,
}
use clpsz_demos.Debug.{dump, hex_dump}
use clpsz_demos.Debug.RoundTrip.{undump, dump-undump}
use clpsz_demos.Debug.Levels.{Output, command_text, daemon_printf, debug_loud, debug, at_line, main}
use clpsz_demos.Debug.Console.{newline, after, given, lines, avoids-All, daemon_printf-lines}

dump-undump_example :
    (undump (dump (codes "Z>\n")) ≡ codes "Z>\n")
    × (undump (hex_dump (codes "Z>\n")) ≡ codes "Z>\n")
dump-undump_example = dump-undump (codes "Z>\n") (omega arith, (omega arith, (omega arith, tt)))

abbrev nothing_yet : Output
nothing_yet = record { stderr = []; commands = [] }

abbrev message : Bytes
message = codes "main.c 28: 33 kkk"

daemon_printf-lines_example :
    (daemon_printf message nothing_yet ≡ (
      if ltb (length message) 490 then some (given (command_text message) nothing_yet) else none))
    × (lines (command_text message) ≡ command_text message ∷ [])
    × (daemon_printf (message ++ newline) nothing_yet ≡ (
        if ltb (length message + 1) 490
        then some (given (command_text (message ++ newline)) nothing_yet)
        else none))
    × (lines (command_text (message ++ newline)) ≡ (codes "echo " ++ message) ∷ after ∷ [])
daemon_printf-lines_example =
    daemon_printf-lines message nothing_yet (avoids-All 0 message refl)
      (avoids-All b'\n' message refl)

-- debug_loud is above the level, debug is not.
loud_run : debug_loud (at_line 1) (codes "x") nothing_yet ≡ nothing_yet
unfolding debug_loud
loud_run = refl

debug_run :
    debug (at_line 1) (codes "x") nothing_yet
    ≡ record { stderr = codes "main.c 1: x"; commands = [] }
unfolding debug
debug_run = refl

-- The commands that a run gave.
abbrev commands_of : Option (ℕ × Output) → Option (List Bytes)
commands_of none = none
commands_of (some (code, out)) = some out.commands

main_run :
    commands_of (main nothing_yet) ≡ some ((codes "echo main.c 28: 33 kkk\n > /dev/tty1 2>&1") ∷ [])
unfolding main
main_run = refl
