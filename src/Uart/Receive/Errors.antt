-- ===== src/Uart/Receive/Errors.antt =====
-- What the receiver does with packets that it should not serve: damaged ones, command 0, and
-- packets behind a stray '@'.
use clpsz_demos.Base.{
  ℕ, zero, suc, ◌+◌, ◌≤◌, ◌<◌, ◌≡◌, ◌≢◌, refl, ap, ◌∙◌, none, some, [], ◌∷◌, ◌++◌, arith, length,
  length-set, set, get_elem?, drop, Bytes, le→ltb,
}
use clpsz_demos.Uart.Packet.{err_sum, hdr_len}
use clpsz_demos.Uart.Packet.RoundTrip.{packet, length-packet, sized-packet, mac_parse-packet}
use clpsz_demos.Uart.Packet.Corruption.{mac_parse-set}
use clpsz_demos.Uart.State.{Host, Serial, and_then, find_block}
use clpsz_demos.Uart.Receive.{ser_cmd_rcv}
use clpsz_demos.Uart.Receive.Assembly.{IsIdle, inside}
use clpsz_demos.Uart.Receive.Head.{idle, to_Idle, with_rcv, false_start}
use clpsz_demos.Uart.Receive.Whole.{begun, rcv-whole}
use clpsz_demos.Uart.Receive.Complete.{done, end_packet-reply, end_packet_rejects, end_packet_zero}
use clpsz_demos.Uart.Receive.Sessions.{
  Plenty, get_memory, body, After, After-rcv, After-append, IsNoise, skip_noise,
}

module _ (host : Host) (c sn : ℕ) (xs rest : Bytes) (w : Serial) (plenty : Plenty host)
    (small : length xs ≤ 249) (ready : IsIdle w.rcv) where
  -- A packet in which one byte behind the length has changed on the line is dropped: nothing is
  -- sent, the heap is as before, and the receiver is ready for the next head.
  pub rcv_damaged :
      (k x y : ℕ)
      → 3 ≤ k
      → get_elem? (packet c sn xs) k ≡ some x
      → y ≢ x
      → (v : Serial) × (ser_cmd_rcv host (set (packet c sn xs) k y ++ rest) w
          ≡ ser_cmd_rcv host rest v)
        × After w [] v
  unfolding packet
  rcv_damaged zero x y behind e ne = absurd (omega arith)
  rcv_damaged (suc zero) x y behind e ne = absurd (omega arith)
  rcv_damaged (suc (suc zero)) x y behind e ne = absurd (omega arith)
  rcv_damaged (suc (suc (suc j))) x y behind e ne =
      let i = to_Idle w.rcv ready in
      let n = hdr_len + length xs in
      let got =
        get_memory host plenty n
          (begun host w i.a i.b i.c i.d w.rcv.buf w.rcv.pkt_len n (omega arith) (omega arith)) in
      let size = length-set (body c sn xs) j y in
      let block = set (packet c sn xs) (suc (suc (suc j))) y in
      let fails =
        mac_parse-set (packet c sn xs) (sized-packet c sn xs) (omega (arith, length-packet c sn xs))
          (suc (suc (suc j))) y (mac_parse-packet c sn xs) e ne (λ q. absurd (omega arith)) in
      let r = inside got.at n i.d 0 in
      (
        with_rcv r w,
        ap (λ t. ser_cmd_rcv host (block ++ rest) (with_rcv t w)) i.form
            ∙ rcv-whole host w i.a i.b i.c i.d w.rcv.buf w.rcv.pkt_len n (omega arith) (omega arith)
                got (set (body c sn xs) j y) rest (omega arith)
            ∙ ap (λ o. and_then o (λ (u, v). ser_cmd_rcv host rest v))
                (end_packet_rejects host w got.at n i.d (2 + length (set (body c sn xs) j y))
                  got.ne_null got.fresh block err_sum
                  (fails ∙ rw (le→ltb (suc (suc (suc j))) 2 (omega arith))) (λ q. cc)),
        After-rcv w r (record { at_start = refl; head_size = refl }),
      )

  -- A packet with the reply bit is left in a block of its own for the sending thread.
  pub rcv_reply :
      128 ≤ c
      → c < 256
      → (v : Serial) × (ser_cmd_rcv host (packet c sn xs ++ rest) w ≡ ser_cmd_rcv host rest v)
        × (v.replied ≡ 1)
        × (v.heap ≡ (v.replied_pkt, packet c sn xs) ∷ w.heap)
        × (find_block v.replied_pkt w.heap ≡ none)
        × (v.replied_pkt ≢ 0)
        × (v.wire ≡ w.wire)
        × (v.send_sn ≡ w.send_sn)
        × IsIdle v.rcv
  unfolding packet
  rcv_reply high byte =
      let i = to_Idle w.rcv ready in
      let n = hdr_len + length xs in
      let got =
        get_memory host plenty n
          (begun host w i.a i.b i.c i.d w.rcv.buf w.rcv.pkt_len n (omega arith) (omega arith)) in
      (
        record w {
          heap = (got.at, packet c sn xs) ∷ w.heap;
          rcv = done n i.d;
          replied = 1;
          replied_pkt = got.at;
        },
        ap (λ t. ser_cmd_rcv host (packet c sn xs ++ rest) (with_rcv t w)) i.form
            ∙ rcv-whole host w i.a i.b i.c i.d w.rcv.buf w.rcv.pkt_len n (omega arith) (omega arith)
                got (body c sn xs) rest (omega arith)
            ∙ ap (λ o. and_then o (λ (u, v). ser_cmd_rcv host rest v))
                (end_packet-reply host w got.at n i.d (2 + length (body c sn xs)) got.ne_null
                  got.fresh c sn xs high byte),
        refl,
        refl,
        got.fresh,
        got.ne_null,
        refl,
        refl,
        record { at_start = refl; head_size = refl },
      )

-- A packet with command 0, which passes every check, makes the receiver call a NULL function.
pub rcv_command_zero :
    (host : Host) (sn : ℕ) (xs rest : Bytes) (w : Serial)
    → Plenty host
    → length xs ≤ 249
    → IsIdle w.rcv
    → ser_cmd_rcv host (packet 0 sn xs ++ rest) w ≡ none
unfolding packet
rcv_command_zero host sn xs rest w plenty small ready =
    let i = to_Idle w.rcv ready in
    let n = hdr_len + length xs in
    let got =
      get_memory host plenty n
        (begun host w i.a i.b i.c i.d w.rcv.buf w.rcv.pkt_len n (omega arith) (omega arith)) in
    ap (λ t. ser_cmd_rcv host (packet 0 sn xs ++ rest) (with_rcv t w)) i.form
    ∙ rcv-whole host w i.a i.b i.c i.d w.rcv.buf w.rcv.pkt_len n (omega arith) (omega arith) got
        (body 0 sn xs) rest (omega arith)
    ∙ ap (λ o. and_then o (λ (u, v). ser_cmd_rcv host rest v))
        (end_packet_zero host w got.at n i.d (2 + length (body 0 sn xs)) got.ne_null got.fresh sn
          xs)

-- A stray '@' before a packet takes the packet's own '@' with it: a packet whose other bytes hold
-- no '@' is lost. Nothing is done for it, and the bytes behind it are read from a state between
-- two packets.
pub rcv_lost :
    (host : Host) (c sn : ℕ) (xs rest : Bytes) (w : Serial)
    → IsNoise (drop 2 (packet c sn xs))
    → IsIdle w.rcv
    → (v : Serial) × (ser_cmd_rcv host (0x40 ∷ packet c sn xs ++ rest) w ≡ ser_cmd_rcv host rest v)
      × After w [] v
unfolding packet
rcv_lost host c sn xs rest w quiet ready =
    let i = to_Idle w.rcv ready in
    let r = idle 0x40 0x40 i.c i.d w.rcv.buf w.rcv.pkt_len in
    let ready_r : IsIdle r = record { at_start = refl; head_size = refl } in
    let tail = drop 1 (packet c sn xs) in
    let (v, runs, after) =
      skip_noise host tail rest (with_rcv r w) ((λ q. absurd (omega arith)), quiet) ready_r in
    (
      v,
      ap (λ t. ser_cmd_rcv host (0x40 ∷ packet c sn xs ++ rest) (with_rcv t w)) i.form
          ∙ false_start host w i.a i.b i.c i.d w.rcv.buf w.rcv.pkt_len 0x40 (tail ++ rest) (λ q. cc)
          ∙ runs,
      After-append (After-rcv w r ready_r) after,
    )
