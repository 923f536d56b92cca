-- ===== src/Debug/Levels.antt =====
-- debug_tools/debug.h and debug_tools/debug.c without the dump: the messages with a level, and
-- _daemon_printf; and debug_tools/main.c, which shows them. cJSON/debug.h has the same levels,
-- with debug for debug_trace.
use clpsz_demos.Base.{
  ℕ, zero, suc, ◌+◌, ◌/◌, ◌%◌, Option, none, some, List, [], ◌∷◌, ◌++◌, Bytes, codes, length, set,
  take, ltb, leb, if◌then◌else◌,
}
use clpsz_demos.Base.Maybe.{◌>>=◌}
use clpsz_demos.Json.Text.{text_of, zeros}
use clpsz_demos.Debug.{hex_dump}

-- The digits of a number, on as many rounds as are enough for every number up to their count.
unfoldable pub decimal_loop : (rounds n : ℕ) → Bytes → Bytes
decimal_loop zero n text = text
decimal_loop (suc rounds) n text =
    let rest = decimal_loop rounds (n / 10) ((b'0' + n % 10) ∷ text) in
    if ltb n 10 then (b'0' + n) ∷ text else rest

-- What "%d" prints of a number that is not negative.
unfoldable pub decimal : ℕ → Bytes
unfolding decimal_loop
decimal n = decimal_loop (suc n) n []

abbrev pub debug_off : ℕ
debug_off = 0

abbrev pub debug_error_level : ℕ
debug_error_level = 1

abbrev pub debug_warn_level : ℕ
debug_warn_level = 2

abbrev pub debug_trace_level : ℕ
debug_trace_level = 3

abbrev pub debug_info_level : ℕ
debug_info_level = 4

abbrev pub debug_loud_level : ℕ
debug_loud_level = 5

abbrev pub g_debug_level : ℕ
g_debug_level = debug_info_level

-- Where a macro is called: __FILE__ and __LINE__.
pub record Place : Type 0 where
  pub file : Bytes
  pub line : ℕ

-- What the process wrote to its standard error, and the commands that it gave to system.
pub record Output : Type 0 where
  pub stderr : Bytes
  pub commands : List Bytes

abbrev pub fprintf_stderr : Bytes → Output → Output
fprintf_stderr text out = record out { stderr = out.stderr ++ text }

-- "%s %d" of a place.
unfoldable pub place_text : Place → Bytes
unfolding decimal
place_text p = p.file ++ codes " " ++ decimal p.line

unfoldable pub debug_raw : Place → (text : Bytes) → Output → Output
unfolding place_text
debug_raw p text out = fprintf_stderr (place_text p ++ codes ": " ++ text) out

unfoldable pub level_debug : (level : ℕ) → Place → (text : Bytes) → Output → Output
unfolding debug_raw
level_debug level p text out = if leb level g_debug_level then debug_raw p text out else out

unfoldable pub debug_error : Place → (text : Bytes) → Output → Output
unfolding level_debug
debug_error = level_debug debug_error_level

unfoldable pub debug_warn : Place → (text : Bytes) → Output → Output
unfolding level_debug
debug_warn = level_debug debug_warn_level

unfoldable pub debug_trace : Place → (text : Bytes) → Output → Output
unfolding level_debug
debug_trace = level_debug debug_trace_level

unfoldable pub debug_info : Place → (text : Bytes) → Output → Output
unfolding level_debug
debug_info = level_debug debug_info_level

unfoldable pub debug_loud : Place → (text : Bytes) → Output → Output
unfolding level_debug
debug_loud = level_debug debug_loud_level

unfoldable pub debug : Place → (text : Bytes) → Output → Output
unfolding debug_info
debug = debug_info

-- HEX_DUMP, which prints the place first.
unfoldable pub hex_dump_at : Place → (buf : Bytes) → Output → Output
unfolding place_text hex_dump
hex_dump_at p buf out =
    fprintf_stderr (hex_dump buf) (fprintf_stderr (place_text p ++ codes ":\n") out)

-- sprintf into a buffer of 512 bytes; more is an access outside it.
unfoldable pub sprintf_512 : Bytes → Option Bytes
sprintf_512 text = if ltb (length text) 512 then some (text ++ (0 ∷ [])) else none

unfoldable pub command_text : (text : Bytes) → Bytes
command_text text = codes "echo " ++ text ++ codes " > /dev/tty1 2>&1"

-- `text` is what the format and its arguments print.
unfoldable pub daemon_printf : (text : Bytes) → Output → Option Output
unfolding sprintf_512 text_of command_text
daemon_printf text out = do
  buf ← sprintf_512 text
  shown ← text_of buf
  buf1 ← sprintf_512 (command_text shown)
  command ← text_of buf1
  some (record out { commands = out.commands ++ (command ∷ []) })

unfoldable pub daemon_print : Place → (text : Bytes) → Output → Option Output
unfolding place_text daemon_printf
daemon_print p text = daemon_printf (place_text p ++ codes ": " ++ text)

-- A line of main.c.
abbrev pub at_line : ℕ → Place
at_line n = record { file = codes "main.c"; line = n }

unfoldable pub test_level : Output → Output
unfolding level_debug debug_info debug_warn decimal
test_level out =
    let info = decimal debug_info_level ++ codes " DEBUG_INFO\n" in
    let warn = decimal debug_warn_level ++ codes " DEBUG_WARN\n" in
    let out = level_debug debug_info_level (at_line 7) info out in
    let out = debug_info (at_line 8) info out in
    let out = level_debug debug_warn_level (at_line 9) warn out in debug_warn (at_line 10) warn out

unfoldable pub test_hexdump : Output → Output
unfolding hex_dump_at zeros
test_hexdump out =
    let buf = zeros 128 in
    let buf = set buf 0 b'Z' in
    let buf = set buf 125 b'P' in
    let buf = set buf 126 b'P' in hex_dump_at (at_line 23) (take 127 buf) out

unfoldable pub test_daemon : Output → Option Output
unfolding daemon_print decimal
test_daemon = daemon_print (at_line 28) (decimal 33 ++ codes " kkk\n")

unfoldable pub main : Output → Option (ℕ × Output)
unfolding test_level test_hexdump test_daemon
main out = do out ← test_daemon (test_hexdump (test_level out)); some (0, out)
