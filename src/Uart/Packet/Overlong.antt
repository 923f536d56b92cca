-- ===== src/Uart/Packet/Overlong.antt =====
-- What _build_pkt makes of a payload that the length byte cannot hold.
use clpsz_demos.Base.{
  ℕ, ◌+◌, ◌≤◌, ◌≡◌, refl, ap, ◌∙◌, Option, some, ◌∷◌, ◌++◌, arith, length, length-append, u8, Bytes,
  ≡→==,
}
use clpsz_demos.Uart.Block.{write_bytes_whole, read_bytes-append}
use clpsz_demos.Uart.Packet.{err_ok, calc_checksum, mac_parse, mac_cmp_head, build_pkt, hdr_len}
use clpsz_demos.Uart.Packet.Checksum.{xor_all, calc_checksum-front}
use clpsz_demos.Uart.Packet.RoundTrip.{packet, summed, sum-packet, to_Block}

-- A payload of 256 bytes and more: the length byte wraps, so that the packet says that it ends
-- with the first part of the payload, and the checksum, which covers just that, is good.
pub build_pkt-wraps :
    (cmd sn : ℕ) (xs ys more block : Bytes)
    → length xs ≤ 249
    → length ys ≡ 256
    → length block ≡ 6 + length (xs ++ ys)
    → (build_pkt cmd sn block (some ((xs ++ ys) ++ more)) (length (xs ++ ys))
        ≡ some (packet cmd sn xs ++ ys))
      × (mac_parse (packet cmd sn xs ++ ys) ≡ some err_ok)
unfolding build_pkt packet mac_parse mac_cmp_head
build_pkt-wraps cmd sn xs ys more block small over fits =
    let t = to_Block (length (xs ++ ys)) block fits in
    let len : u8 (hdr_len + length (xs ++ ys)) ≡ hdr_len + length xs =
      omega (arith, length-append xs ys) in
    let front = λ (c : ℕ). 0x40 ∷ 0x3e ∷ (hdr_len + length xs) ∷ c ∷ sn ∷ cmd ∷ xs in
    let sums : (c : ℕ) → calc_checksum (front c ++ ys) ≡ some (xor_all 0 (summed cmd sn xs)) = λ c.
      calc_checksum-front (front c) ys (ap {B = Option ℕ} some (omega arith)) refl
      ∙ ap some (sum-packet cmd sn c xs) in
    (
      rw (
        t.parts,
        len,
        read_bytes-append (xs ++ ys) more,
        write_bytes_whole (xs ++ ys) t.rest (omega (arith, t.behind)),
        sums t.d,
      ),
      rw (sums (xor_all 0 (summed cmd sn xs)), ≡→== (xor_all 0 (summed cmd sn xs)) _ refl),
    )
