-- ===== src/Uart/Receive/Events.antt =====
-- What ser_cmd_rcv does at the last byte of a packet, by what the packet means.
use clpsz_demos.Base.{
  ℕ, ◌+◌, ◌≤◌, ◌<◌, ◌≡◌, ◌≢◌, refl, sym, ap, ◌∙◌, inl, inr, Option, none, some, [], ◌∷◌, arith,
  bit_xor, ==→≡, ==→≢, ltb→lt, ltb→le, ◌==◌, ltb, Bool-cases, length, Bytes, AreBytes, false,
  get_elem?,
}
use mathlib.Core.Path.{subst}
use clpsz_demos.Base.Bits.{zero-bit_xor}
use clpsz_demos.Uart.Decode.{dropped, command, reply, crash, meant, judge, whole}
use clpsz_demos.Uart.Packet.{err_ok, err_sum, hdr_len}
use clpsz_demos.Uart.Packet.Checksum.{xor_all, mac_parse_lem}
use clpsz_demos.Uart.Packet.RoundTrip.{packet, summed, sum-packet}
use clpsz_demos.Uart.State.{null, find_block, Host, Serial, Receiver}
use clpsz_demos.Uart.Receive.{end_packet}
use clpsz_demos.Uart.Receive.Assembly.{inside}
use clpsz_demos.Uart.Receive.Complete.{
  complete, done, end_packet_rejects, end_packet-reply, end_packet-Served, end_packet_zero,
}
use clpsz_demos.Uart.Receive.Effects.{Effects, Happens}

-- A block of the right form whose exclusive or is 0 is a packet.
packet-of :
    (ck sn c : ℕ) (xs : Bytes)
    → xor_all 0 (whole (hdr_len + length xs) (ck ∷ sn ∷ c ∷ xs)) ≡ 0
    → whole (hdr_len + length xs) (ck ∷ sn ∷ c ∷ xs) ≡ packet c sn xs
unfolding packet
packet-of ck sn c xs good =
    let sum : ck ≡ xor_all 0 (summed c sn xs) =
      sym (zero-bit_xor ck) ∙ ap (λ (t : ℕ). bit_xor t ck) (sym good) ∙ sum-packet c sn ck xs in
    ap (λ (t : ℕ). whole (hdr_len + length xs) (t ∷ sn ∷ c ∷ xs)) sum

module _ (host : Host) (effects : Effects host) (w : Serial) (p d k : ℕ) (given : p ≢ null)
    (fresh : find_block p w.heap ≡ none) where
  module _ (ck sn c : ℕ) (xs : Bytes) where
    block : Bytes
    block = whole (hdr_len + length xs) (ck ∷ sn ∷ c ∷ xs)

    not_ok : err_sum ≢ err_ok
    not_ok q = cc

    ended : Bytes → Option (Unit {0} × Serial)
    ended b = end_packet host (complete w p (hdr_len + length xs) d k b)

    ended_bad : (xor_all 0 block == 0) ≡ false → Happens host effects dropped w (ended block)
    unfolding ended block
    ended_bad bad =
        let sized : get_elem? block 2 ≡ some (length block) =
          ap {B = Option ℕ} some (omega arith) in
        let fails = mac_parse_lem block sized refl refl refl ∙ rw bad in
        (
          record w { rcv = inside p (hdr_len + length xs) d 0 },
          end_packet_rejects host w p (hdr_len + length xs) d k given fresh block err_sum fails
              not_ok,
          effects.on_dropped w (inside p (hdr_len + length xs) d 0),
          record { at_start = refl; head_size = refl },
        )

    module _ (good : xor_all 0 block ≡ 0) (small : length xs ≤ 249) where
      same : ended block ≡ ended (packet c sn xs)
      unfolding block
      same = ap ended (packet-of ck sn c xs good)

      ended-reply : 128 ≤ c → c < 256 → Happens host effects (reply block) w (ended block)
      unfolding ended block
      ended-reply high byte = (
        record w {
          heap = (p, packet c sn xs) ∷ w.heap;
          rcv = done (hdr_len + length xs) d;
          replied = 1;
          replied_pkt = p;
        },
        same ∙ end_packet-reply host w p (hdr_len + length xs) d k given fresh c sn xs high byte,
        subst
            (λ b. effects.Effect (reply b) w (record w {
              heap = (p, packet c sn xs) ∷ w.heap;
              rcv = done (hdr_len + length xs) d;
              replied = 1;
              replied_pkt = p;
            }))
            (sym (packet-of ck sn c xs good))
            (effects.on_reply w p c sn xs (done (hdr_len + length xs) d) high byte),
        record { at_start = refl; head_size = refl },
      )

      ended-command : c < 128 → c ≢ 0 → Happens host effects (command c sn xs) w (ended block)
      unfolding ended block
      ended-command low nz =
          let served =
            end_packet-Served host w p (hdr_len + length xs) d k given fresh c sn xs nz low small in
          (
            served.after,
            same ∙ served.returns,
            effects.on_command w c sn xs (done (hdr_len + length xs) d) served,
            record {
              at_start = ap (λ (r : Receiver). r.i) served.kept.rcv;
              head_size = ap (λ (r : Receiver). length r.head) served.kept.rcv;
            },
          )

      ended-crash : c ≡ 0 → Happens host effects crash w (ended block)
      unfolding ended block
      ended-crash zero_c =
          same
          ∙ ap (λ (t : ℕ). ended (packet t sn xs)) zero_c
          ∙ end_packet_zero host w p (hdr_len + length xs) d k given fresh sn xs

      ended-meant : c < 256 → Happens host effects (meant c sn xs block) w (ended block)
      ended-meant byte = elim (Bool-cases (ltb c 128)) [
        | inl low ↦ elim (Bool-cases (c == 0)) [
          | inl z ↦ rw (low, z) (ended-crash (==→≡ c 0 z))
          | inr nz ↦ rw (low, nz) (ended-command (ltb→lt c 128 low) (==→≢ c 0 nz))
        ]
        | inr high ↦ rw high (ended-reply (ltb→le c 128 high) byte)
      ]

    ended-judge :
        length xs ≤ 249
        → c < 256
        → Happens host effects (judge (hdr_len + length xs) (ck ∷ sn ∷ c ∷ xs)) w (ended block)
    unfolding judge block
    ended-judge small byte = elim (Bool-cases (xor_all 0 block == 0)) [
      | inl good ↦ rw (judge, good) (ended-meant (==→≡ _ 0 good) small byte)
      | inr bad ↦ rw (judge, bad) (ended_bad bad)
    ]

  -- The last byte of a packet, whatever the packet holds.
  pub end_packet-Happens :
      (n : ℕ) (body : Bytes)
      → n ≡ 3 + length body
      → 6 ≤ n
      → n < 256
      → AreBytes body
      → Happens host effects (judge n body) w (end_packet host (complete w p n d k (whole n body)))
  unfolding ended block
  end_packet-Happens n [] size fits small bytes = absurd (omega arith)
  end_packet-Happens n (ck ∷ []) size fits small bytes = absurd (omega arith)
  end_packet-Happens n (ck ∷ sn ∷ []) size fits small bytes = absurd (omega arith)
  end_packet-Happens n (ck ∷ sn ∷ c ∷ xs) size fits small bytes =
      let is : n ≡ hdr_len + length xs = omega arith in
      rw is (ended-judge ck sn c xs (omega arith) bytes.1.1.0)
