-- ===== src/Uart/Packet.antt =====
-- Packets of ser_cmd.h, and the functions of ser_cmd.c that build and check one. A PKT is the
-- block of bytes that it occupies: head at 0 and 1, len at 2, check_sum at 3, sn at 4, cmd at 5,
-- data from 6. A read or write outside the block is `none`.
pub mod Checksum
pub mod Corruption
pub mod Overlong
pub mod RoundTrip
use clpsz_demos.Base.{
  ℕ, zero, suc, ◌+◌, ◌%◌, ◌^◌, bit_and, bit_xor, Bool, true, false, not, ◌&&◌, Option, none, some,
  List, [], ◌∷◌, ◌==◌, if◌then◌else◌, get_elem?, u8, Bytes,
}
use clpsz_demos.Base.Maybe.{◌>>=◌}
use clpsz_demos.Uart.Block.{write_bytes, read_bytes}

-- MAC_HDR is head[2], len and check_sum; TRANS_HDR is sn; APP_HDR is cmd.
abbrev pub mac_hdr_len : ℕ
mac_hdr_len = 4

abbrev pub hdr_len : ℕ
hdr_len = 6

-- sizeof(PKT) - 1 and sizeof(PKT_DATA) - 1.
abbrev pub pkt_size : ℕ
pkt_size = 6

abbrev pub pkt_data_size : ℕ
pkt_data_size = 1

abbrev pub reply_mask : ℕ
reply_mask = 0x80

pub data ErrCode : Type 0 where
  err_ok err_err err_sum err_fmt err_ver err_nomem err_noans err_busy err_notimplement : ErrCode

-- The number of an enumerator.
abbrev pub code : ErrCode → ℕ
code err_ok = 0
code err_err = 1
code err_sum = 2
code err_fmt = 3
code err_ver = 4
code err_nomem = 5
code err_noans = 6
code err_busy = 7
code err_notimplement = 8

-- _mac_head: '@' and '>'.
abbrev pub mac_head : Bytes
mac_head = 0x40 ∷ 0x3e ∷ []

-- `for (; n > 0; n--, i++) sum ^= MEM_U8(buf, i)`. The exclusive or of bytes is a byte.
checksum_loop : (buf : Bytes) (i n sum : ℕ) → Option ℕ
checksum_loop buf i zero sum = some sum
checksum_loop buf i (suc n) sum = do
  x ← get_elem? buf i
  checksum_loop buf (suc i) n (bit_xor sum x)

unfoldable pub calc_checksum : Bytes → Option ℕ
unfolding checksum_loop
calc_checksum pkt = do
  len ← get_elem? pkt 2
  sum ← checksum_loop pkt 0 len 0
  check_sum ← get_elem? pkt 3
  some (bit_xor sum check_sum)

-- MAC_CMP_HEAD, as a test that is true when the heads differ.
unfoldable pub mac_cmp_head : Bytes → Option Bool
mac_cmp_head pkt = do
  h0 ← get_elem? pkt 0
  h1 ← get_elem? pkt 1
  some (not (h0 == 0x40 && h1 == 0x3e))

unfoldable pub mac_parse : Bytes → Option ErrCode
unfolding calc_checksum mac_cmp_head
mac_parse pkt = do
  differs ← mac_cmp_head pkt
  if differs then some err_fmt else do
    sum ← calc_checksum pkt
    check_sum ← get_elem? pkt 3
    some (if sum == check_sum then err_ok else err_sum)

-- IS_REPLY.
unfoldable pub is_reply : Bytes → Option Bool
is_reply pkt = do cmd ← get_elem? pkt 5; some (not (bit_and cmd reply_mask == 0))

-- `if (pkt_data) memcpy(pkt->data, pkt_data, len)`; `source` is what can be read at `pkt_data`.
copy_data : Bytes → (source : Option Bytes) → (len : ℕ) → Option Bytes
copy_data pkt none len = some pkt
copy_data pkt (some source) len = do xs ← read_bytes 0 len source; write_bytes 6 xs pkt

-- _build_pkt, from whatever bytes the block held before.
unfoldable pub build_pkt :
    (cmd sn : ℕ) (pkt : Bytes) (pkt_data : Option Bytes) (len : ℕ) → Option Bytes
unfolding copy_data write_bytes calc_checksum
build_pkt cmd sn pkt pkt_data len = do
  pkt ← write_bytes 0 mac_head pkt
  pkt ← write_bytes 2 (u8 (hdr_len + len) ∷ []) pkt
  pkt ← write_bytes 4 (sn ∷ []) pkt
  pkt ← write_bytes 5 (cmd ∷ []) pkt
  pkt ← copy_data pkt pkt_data len
  sum ← calc_checksum pkt
  write_bytes 3 (sum ∷ []) pkt
