-- ===== src/Uart/Decode/Packets.antt =====
-- What the packets that _build_pkt makes mean to a receiver.
use clpsz_demos.Base.{
  ℕ, zero, suc, ◌+◌, ◌≤◌, ◌<◌, ◌≡◌, ◌≢◌, refl, ap, ◌∙◌, some, [], ◌∷◌, ◌++◌, append_assoc, arith,
  length, length-append, Bytes, ◌-◌, ≡→==, ≢→==, lt→ltb, le→ltb,
}
use clpsz_demos.Uart.Decode.{hunting, collecting, command, judge, whole, scan, decode}
use clpsz_demos.Uart.Packet.{build_pkt, hdr_len}
use clpsz_demos.Uart.Packet.Overlong.{build_pkt-wraps}
use clpsz_demos.Uart.Packet.Checksum.{xor_all}
use clpsz_demos.Uart.Packet.RoundTrip.{packet, summed, length-packet, xor_all-packet}

-- A packet whose last bytes are `b`.
decode-collecting :
    (n : ℕ) (pre b rest : Bytes) (left : ℕ)
    → length b ≡ suc left
    → decode (collecting n left pre) (b ++ rest) ≡ judge n (pre ++ b) ∷ decode hunting rest
unfolding decode scan
decode-collecting n pre [] rest left size = absurd (omega arith)
decode-collecting n pre (x ∷ []) rest zero size = refl
decode-collecting n pre (x ∷ []) rest (suc left) size = absurd (omega arith)
decode-collecting n pre (x ∷ y ∷ b) rest zero size = absurd (omega arith)
decode-collecting n pre (x ∷ y ∷ b) rest (suc left) size =
    decode-collecting n (pre ++ x ∷ []) (y ∷ b) rest left (omega arith)
    ∙ ap (λ t. judge n t ∷ decode hunting rest) (append_assoc pre (x ∷ []) (y ∷ b))

decode-whole :
    (n : ℕ) (body rest : Bytes)
    → 6 ≤ n
    → n ≡ 3 + length body
    → decode hunting (whole n body ++ rest) ≡ judge n body ∷ decode hunting rest
unfolding decode scan
decode-whole n body rest fits size =
    rw (le→ltb n 6 fits) (decode-collecting n [] body rest (n - 4) (omega arith))

pub decode-packet :
    (c sn : ℕ) (xs rest : Bytes)
    → c ≢ 0
    → c < 128
    → decode hunting (packet c sn xs ++ rest) ≡ command c sn xs ∷ decode hunting rest
unfolding packet judge
decode-packet c sn xs rest nz low =
    decode-whole (hdr_len + length xs) (xor_all 0 (summed c sn xs) ∷ sn ∷ c ∷ xs) rest (omega arith)
      (omega arith)
    ∙ rw (≡→== _ 0 (xor_all-packet c sn xs), lt→ltb c 128 low, ≢→== c 0 nz)

-- For a payload of 256 to 505 bytes the length byte of _build_pkt wraps: a receiver takes the
-- packet for a good one that carries all but the last 256 bytes, and looks in these 256 bytes for
-- the next packet.
pub build_pkt-decode_wrapped :
    (cmd sn : ℕ) (xs ys more block rest : Bytes)
    → length xs ≤ 249
    → length ys ≡ 256
    → length block ≡ 6 + length (xs ++ ys)
    → cmd ≢ 0
    → cmd < 128
    → (pkt : Bytes) × (build_pkt cmd sn block (some ((xs ++ ys) ++ more)) (length (xs ++ ys))
        ≡ some pkt)
      × (length pkt ≡ length block)
      × (decode hunting (pkt ++ rest) ≡ command cmd sn xs ∷ decode hunting (ys ++ rest))
build_pkt-decode_wrapped cmd sn xs ys more block rest small over fits nz low = (
  packet cmd sn xs ++ ys,
  (build_pkt-wraps cmd sn xs ys more block small over fits).0,
  omega (
    arith,
    fits,
    length-append (packet cmd sn xs) ys,
    length-append xs ys,
    length-packet cmd sn xs,
  ),
  ap (decode hunting) (append_assoc (packet cmd sn xs) ys rest)
      ∙ decode-packet cmd sn xs (ys ++ rest) nz low,
)
