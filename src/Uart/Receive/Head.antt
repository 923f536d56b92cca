-- ===== src/Uart/Receive/Head.antt =====
-- How ser_cmd_rcv looks for the head of a packet.
use clpsz_demos.Base.{
  ℕ, ◌≤◌, ◌<◌, ◌≡◌, ◌≢◌, refl, [], ◌∷◌, arith, ≢→==, le→ltb, lt→ltb, length, drop, Bytes,
}
use clpsz_demos.Uart.Block.{write_bytes_front}
use clpsz_demos.Uart.Packet.{hdr_len}
use clpsz_demos.Uart.State.{null, Host, Receiver, Serial}
use clpsz_demos.Uart.State.Laws.{Got, Refused, store_lem}
use clpsz_demos.Uart.Receive.{ser_cmd_rcv, rcv_byte, rcv_head, start_packet}
use clpsz_demos.Uart.Receive.Assembly.{IsIdle, collecting}

-- The statics between two packets, written out.
abbrev pub idle : (a b c d buf len : ℕ) → Receiver
idle a b c d buf len = record { head = a ∷ b ∷ c ∷ d ∷ []; buf = buf; pkt_len = len; i = 0 }

pub record Idle (r : Receiver) : Type 0 where
  pub a : ℕ
  pub b : ℕ
  pub c : ℕ
  pub d : ℕ
  pub form : r ≡ idle a b c d r.buf r.pkt_len

Idle-of :
    (head : Bytes) (buf len i : ℕ)
    → i ≡ 0
    → length head ≡ 4
    → Idle (record { head = head; buf = buf; pkt_len = len; i = i })
Idle-of [] buf len i e h = absurd (omega arith)
Idle-of (a ∷ []) buf len i e h = absurd (omega arith)
Idle-of (a ∷ b ∷ []) buf len i e h = absurd (omega arith)
Idle-of (a ∷ b ∷ c ∷ []) buf len i e h = absurd (omega arith)
Idle-of (a ∷ b ∷ c ∷ d ∷ []) buf len i e h = record {
  a = a;
  b = b;
  c = c;
  d = d;
  form = λ j. record { head = a ∷ b ∷ c ∷ d ∷ []; buf = buf; pkt_len = len; i = e j };
}
Idle-of (a ∷ b ∷ c ∷ d ∷ x ∷ xs) buf len i e h = absurd (omega arith)

pub to_Idle : (r : Receiver) → IsIdle r → Idle r
to_Idle r is = Idle-of r.head r.buf r.pkt_len r.i is.at_start is.head_size

abbrev pub with_rcv : Receiver → Serial → Serial
with_rcv r w = record w { rcv = r }

module _ (host : Host) (w : Serial) (a b c d buf len : ℕ) where
  pub take_at :
      (rest : Bytes)
      → ser_cmd_rcv host (0x40 ∷ rest) (with_rcv (idle a b c d buf len) w)
        ≡ ser_cmd_rcv host rest
            (with_rcv (record { head = 0x40 ∷ b ∷ c ∷ d ∷ []; buf = buf; pkt_len = len; i = 1 }) w)
  unfolding ser_cmd_rcv rcv_byte rcv_head
  take_at rest = refl

  pub take_head :
      (rest : Bytes)
      → ser_cmd_rcv host (0x40 ∷ 0x3e ∷ rest) (with_rcv (idle a b c d buf len) w)
        ≡ ser_cmd_rcv host rest (
            with_rcv
              (record { head = 0x40 ∷ 0x3e ∷ c ∷ d ∷ []; buf = buf; pkt_len = len; i = 2 })
              w)
  unfolding ser_cmd_rcv rcv_byte rcv_head
  take_head rest = refl

  -- A byte other than the first of a head leaves the receiver where it is.
  pub skip :
      (x : ℕ) (rest : Bytes)
      → x ≢ 0x40
      → ser_cmd_rcv host (x ∷ rest) (with_rcv (idle a b c d buf len) w)
        ≡ ser_cmd_rcv host rest (with_rcv (idle x b c d buf len) w)
  unfolding ser_cmd_rcv rcv_byte rcv_head
  skip x rest other = rw (≢→== x 0x40 other)

  -- So does a first byte that is not followed by the second; the second one is lost.
  pub false_start :
      (x : ℕ) (rest : Bytes)
      → x ≢ 0x3e
      → ser_cmd_rcv host (0x40 ∷ x ∷ rest) (with_rcv (idle a b c d buf len) w)
        ≡ ser_cmd_rcv host rest (with_rcv (idle 0x40 x c d buf len) w)
  unfolding ser_cmd_rcv rcv_byte rcv_head
  false_start x rest other = rw (≢→== x 0x3e other)

  -- A length that is too small for a header is dropped with its head.
  pub short_length :
      (n : ℕ) (rest : Bytes)
      → n < 6
      → ser_cmd_rcv host (0x40 ∷ 0x3e ∷ n ∷ rest) (with_rcv (idle a b c d buf len) w)
        ≡ ser_cmd_rcv host rest (with_rcv (idle 0x40 0x3e n d buf n) w)
  unfolding ser_cmd_rcv rcv_byte rcv_head start_packet
  short_length n rest small = rw (lt→ltb n hdr_len small)

  -- With a good length and memory, a packet begins.
  pub begin_packet :
      (n : ℕ) (rest : Bytes)
      → 6 ≤ n
      → (got : Got host n
          (with_rcv (record { head = 0x40 ∷ 0x3e ∷ n ∷ d ∷ []; buf = buf; pkt_len = n; i = 2 }) w))
      → ser_cmd_rcv host (0x40 ∷ 0x3e ∷ n ∷ rest) (with_rcv (idle a b c d buf len) w)
        ≡ ser_cmd_rcv host rest (collecting w got.at n d (0x40 ∷ 0x3e ∷ n ∷ []) (drop 3 got.block))
  unfolding ser_cmd_rcv rcv_byte rcv_head start_packet
  begin_packet n rest fits got =
      let begun = record w {
        heap = (got.at, got.block) ∷ w.heap;
        rcv = record { head = 0x40 ∷ 0x3e ∷ n ∷ d ∷ []; buf = got.at; pkt_len = n; i = 2 };
      } in
      rw (le→ltb n hdr_len fits, got.result, ≢→== got.at null got.ne_null)
        (rw (
          store_lem begun got.at got.fresh 0 (0x40 ∷ 0x3e ∷ n ∷ []) refl
            (write_bytes_front (0x40 ∷ 0x3e ∷ n ∷ []) got.block (omega (arith, got.size)))))

  -- Without memory the head is dropped, and the search begins again behind the length.
  pub no_block :
      (n : ℕ) (rest : Bytes)
      → 6 ≤ n
      → Refused host n
          (with_rcv (record { head = 0x40 ∷ 0x3e ∷ n ∷ d ∷ []; buf = buf; pkt_len = n; i = 2 }) w)
      → ser_cmd_rcv host (0x40 ∷ 0x3e ∷ n ∷ rest) (with_rcv (idle a b c d buf len) w)
        ≡ ser_cmd_rcv host rest (with_rcv (idle 0x40 0x3e n d null n) w)
  unfolding ser_cmd_rcv rcv_byte rcv_head start_packet
  no_block n rest fits refused = rw (le→ltb n hdr_len fits, refused.result)
