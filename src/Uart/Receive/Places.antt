-- ===== src/Uart/Receive/Places.antt =====
-- The places of Uart/Decode.antt as states of ser_cmd_rcv.
use clpsz_demos.Base.{
  ℕ, suc, ◌+◌, ◌≤◌, ◌<◌, ◌≡◌, ◌≢◌, refl, none, some, [], ◌∷◌, length, Bytes, AreBytes,
}
use clpsz_demos.Uart.Decode.{Scan, hunting, seen_at, seen_head, collecting, whole}
use clpsz_demos.Uart.Packet.{err_ok}
use clpsz_demos.Uart.State.{null, find_block, Host, Serial}
use clpsz_demos.Uart.Receive.{ser_cmd_rcv}
use clpsz_demos.Uart.Receive.Assembly.{IsIdle, inside, collect_byte, last_byte}
use clpsz_demos.Uart.Receive.Assembly as Assembly
use clpsz_demos.Uart.Receive.Head.{idle, with_rcv, to_Idle}

-- What the static variables hold besides the place in the packet: the bytes of `head`, `buf`,
-- `pkt_len`, and what the block held before behind the bytes that have come.
pub record Statics : Type 0 where
  pub a : ℕ
  pub b : ℕ
  pub c : ℕ
  pub d : ℕ
  pub buf : ℕ
  pub len : ℕ
  pub more : Bytes

-- The state of the program at a place; `w` has all but the block that is being filled.
abbrev pub state_of : Scan → Statics → Serial → Serial
state_of hunting z w = with_rcv (idle z.a z.b z.c z.d z.buf z.len) w
state_of seen_at z w =
    with_rcv (record { head = 0x40 ∷ z.b ∷ z.c ∷ z.d ∷ []; buf = z.buf; pkt_len = z.len; i = 1 }) w
state_of seen_head z w =
    with_rcv (record { head = 0x40 ∷ 0x3e ∷ z.c ∷ z.d ∷ []; buf = z.buf; pkt_len = z.len; i = 2 }) w
state_of (collecting n left body) z w = Assembly.collecting w z.buf n z.d (whole n body) z.more

-- The invariant: `buf` is a block of its own, of the length that the packet gives, and filled up
-- to `i`.
pub record Filling (n left : ℕ) (body : Bytes) (z : Statics) (w : Serial) : Type 0 where
  pub fresh : find_block z.buf w.heap ≡ none
  pub ne_null : z.buf ≢ null
  pub room : length z.more ≡ suc left
  pub total : n ≡ 4 + length body + left
  pub header : 6 ≤ n
  pub small : n < 256
  pub are_bytes : AreBytes body

abbrev pub Fits : Scan → Statics → Serial → Type 0
Fits (collecting n left body) z w = Filling n left body z w
Fits s z w = Unit

pub run_nothing : (host : Host) (w : Serial) → ser_cmd_rcv host [] w ≡ some (err_ok, w)
unfolding ser_cmd_rcv
run_nothing host w = refl

-- The statics between two packets.
unfoldable pub statics_of : (v : Serial) → IsIdle v.rcv → Statics
statics_of v ready =
    let i = to_Idle v.rcv ready in
    record { a = i.a; b = i.b; c = i.c; d = i.d; buf = v.rcv.buf; len = v.rcv.pkt_len; more = [] }
