-- ===== src/Uart/Receive.antt =====
-- ser_cmd_rcv of ser_cmd.c: the loop that assembles packets from the bytes of the line, and the
-- other thread's wait for a reply, ser_hal_rcvreply, with ser_cmd_send.
pub mod Assembly
pub mod Complete
pub mod Effects
pub mod Errors
pub mod Events
pub mod Head
pub mod Moves
pub mod Places
pub mod Replies
pub mod Safety
pub mod Sessions
pub mod Stream
pub mod Whole
use clpsz_demos.Base.{
  ℕ, ◌+◌, Bool, true, false, not, ◌&&◌, ◌||◌, Option, none, some, List, [], ◌∷◌, ◌==◌, ltb, leb,
  if◌then◌else◌, get_elem?, set, take, u8, u32, Bytes,
}
use clpsz_demos.Uart.Packet.{
  ErrCode, err_ok, err_nomem, hdr_len, pkt_size, mac_head, mac_parse, is_reply, build_pkt,
}
use clpsz_demos.Uart.State.{
  Ptr, null, Host, Receiver, Serial, M, pure, ◌>>=◌, ◌>>◌, lift, load_block, store_block, load_u8,
  store, ser_hal_malloc, ser_hal_free, ser_hal_write, dump_pkt, print,
}
use clpsz_demos.Uart.Command.{ser_cmd_dealcmd}

-- An assignment to the static variables of ser_cmd_rcv.
abbrev pub set_rcv : (Receiver → Receiver) → M (Unit {0})
set_rcv f w = some (tt, record w { rcv = f w.rcv })

-- `i = n`.
abbrev pub set_i : ℕ → M (Unit {0})
set_i n = set_rcv (λ r. record r { i = n })

-- `i++` of a uint_8.
abbrev pub next_i : M (Unit {0})
next_i = set_rcv (λ r. record r { i = u8 (r.i + 1) })

-- The third byte is the length: a block is allocated for the packet, and the head copied in.
unfoldable pub start_packet : Host → (ch : ℕ) → M (Unit {0})
start_packet host ch = do
  set_rcv (λ r. record r { pkt_len = ch })
  if ltb ch hdr_len then set_i 0 else do
    p ← ser_hal_malloc host ch
    set_rcv (λ r. record r { buf = p })
    if p == null then set_i 0 else do λ w. store p 0 (take 3 w.rcv.head) w; next_i

-- `head[i] != _mac_head[i]`.
abbrev pub differs : ℕ → Option ℕ → Bool
differs ch none = true
differs ch (some m) = not (ch == m)

-- A byte of the head, `i <= 2`. A write past `head[3]` cannot happen here.
unfoldable pub rcv_head : Host → (ch : ℕ) → M (Unit {0})
rcv_head host ch w =
    let i = w.rcv.i in
    let v = record w { rcv = record w.rcv { head = set w.rcv.head i ch } } in
    if leb i 1 && differs ch (get_elem? mac_head i)
    then set_i 0 v
    else if i == 2
    then start_packet host ch v
    else next_i v

-- ser_hal_tellsend: the packet now belongs to the sending thread.
unfoldable pub ser_hal_tellsend : Ptr → M ErrCode
ser_hal_tellsend pkt w = some (err_ok, record w { replied_pkt = pkt; replied = 1 })

-- A checked packet: a reply goes to the sending thread, a command to its handler.
unfoldable pub hand_on : Host → (is_reply : Bool) → (buf : Ptr) → M (Unit {0})
hand_on host true buf = do ser_hal_tellsend buf; pure tt
hand_on host false buf = do ser_cmd_dealcmd host buf; print (0x0a ∷ []); ser_hal_free buf

unfoldable pub finish : Host → ErrCode → (buf : Ptr) → M (Unit {0})
finish host err_ok buf = do
  pkt ← load_block buf
  reply ← lift (is_reply pkt)
  hand_on host reply buf
  set_rcv (λ r. record r { i = 0; buf = null })
finish host e buf = do set_i 0; ser_hal_free buf

-- The last byte has come: check the packet.
unfoldable pub end_packet : Host → M (Unit {0})
end_packet host = do
  buf ← λ w. pure w.rcv.buf w
  pkt ← load_block buf
  res ← lift (mac_parse pkt)
  finish host res buf

-- A byte of the packet behind the length. `i == pkt_len - 1` is a test on ints.
unfoldable pub rcv_body : Host → (ch : ℕ) → M (Unit {0})
rcv_body host ch = do
  λ w. store w.rcv.buf w.rcv.i (ch ∷ []) w
  λ w. (if w.rcv.i + 1 == w.rcv.pkt_len then end_packet host else next_i) w

-- One round of the loop, for the byte that ser_hal_read has stored in `ch`.
unfoldable pub rcv_byte : Host → (ch : ℕ) → M (Unit {0})
rcv_byte host ch w = (if leb w.rcv.i 2 then rcv_head host ch else rcv_body host ch) w

-- ser_cmd_rcv on the bytes that the line delivers. ser_hal_read always returns 1, so the loop
-- ends only with its input.
unfoldable pub ser_cmd_rcv : Host → Bytes → M ErrCode
ser_cmd_rcv host [] = pure err_ok
ser_cmd_rcv host (ch ∷ chs) = do rcv_byte host ch; ser_cmd_rcv host chs
