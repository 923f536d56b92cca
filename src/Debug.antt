-- ===== src/Debug.antt =====
-- The hexadecimal dumps: __dump of linux/uart_communicate_protocol/debug.c, and _hex_dump of
-- debug_tools/debug.c (cJSON/debug.c and linux/netlink_socket/debug.c hold the same text).
pub mod Console
pub mod Levels
pub mod RoundTrip
mod Tests
use clpsz_demos.Base.{
  ℕ, ◌+◌, ◌/◌, ◌%◌, [], ◌∷◌, ◌++◌, ltb, ◌==◌, if◌then◌else◌, Bytes, codes, length, ◌-◌, ◌&&◌,
}

-- One hexadecimal digit as %X prints it.
unfoldable pub hex_digit : ℕ → ℕ
hex_digit d = if ltb d 10 then b'0' + d else b'A' + (d - 10)

-- What is printed behind the i-th byte.
unfoldable pub separators : ℕ → Bytes
separators i = (if i % 8 == 7 then 0x20 ∷ [] else []) ++ (if i % 16 == 15 then 0x0a ∷ [] else [])

-- The text of "%02X " for the i-th byte, and what follows it.
unfoldable pub dump_byte : (i x : ℕ) → Bytes
unfolding hex_digit separators
dump_byte i x = hex_digit (x / 16) ∷ hex_digit (x % 16) ∷ 0x20 ∷ separators i

unfoldable pub dump_loop : (i : ℕ) → Bytes → Bytes
unfolding dump_byte
dump_loop i [] = []
dump_loop i (x ∷ xs) = dump_byte i x ++ dump_loop (i + 1) xs

-- What __dump prints of the bytes of a buffer.
unfoldable pub dump : Bytes → Bytes
unfolding dump_loop
dump buf =
    codes "************************************************\n" ++ dump_loop 0 buf ++ codes "\n"

-- What _hex_dump prints. `i` is the length when the loop ends, so `(--i) % 16 == 15` holds when
-- it is a positive multiple of 16; of -1 the remainder is -1.
unfoldable pub hex_dump : Bytes → Bytes
unfolding dump_loop
hex_dump buf =
    codes "**********************start**********************\n"
    ++ dump_loop 0 buf
    ++ (if ltb 0 (length buf) && (length buf - 1) % 16 == 15 then [] else codes "\n")
    ++ codes "********************** end **********************\n"
