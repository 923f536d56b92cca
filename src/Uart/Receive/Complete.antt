-- ===== src/Uart/Receive/Complete.antt =====
-- What happens to a packet when its last byte has come.
use clpsz_demos.Base.{
  ℕ, ◌+◌, ◌-◌, ◌≤◌, ◌<◌, ◌≡◌, ◌≢◌, refl, sym, ap, ◌∙◌, Option, none, some, [], ◌∷◌, ◌++◌, arith,
  ◌==◌, ≢→==, true, false, not, bit_and, length, Bytes,
}
use clpsz_demos.Base.Tables.{holds_up_to, holds_at}
use clpsz_demos.Debug.{dump}
use clpsz_demos.Uart.Packet.{ErrCode, err_ok, mac_parse, is_reply, reply_mask}
use clpsz_demos.Uart.Packet.RoundTrip.{packet, mac_parse-packet, sized-packet, cmd-packet}
use clpsz_demos.Uart.State.{
  Ptr, null, Heap, find_block, Host, Receiver, Serial, print, ser_hal_free,
}
use clpsz_demos.Uart.State.Laws.{
  printed, find_block-top, load_block_lem, load_u8_lem, dump_pkt_lem, free-top,
}
use clpsz_demos.Uart.Command.{ser_cmd_dealcmd, find_handler, find_loop}
use clpsz_demos.Uart.Command.Handlers.{answer_of, room_of}
use clpsz_demos.Uart.Command.Reply.{handler_of}
use clpsz_demos.Uart.Command.Deal.{
  Kept, Outcome, Outcome-same, ser_cmd_dealcmd-Dealt, ok_reply, nomem_reply,
}
use clpsz_demos.Uart.Receive.{end_packet, finish, hand_on, ser_hal_tellsend}
use clpsz_demos.Uart.Receive.Assembly.{inside}

-- The reply bit of a byte.
low_table : holds_up_to (λ c. bit_and c reply_mask == 0) 128 ≡ true
unfolding holds_up_to
low_table = refl

high_table : holds_up_to (λ c. not (bit_and (128 + c) reply_mask == 0)) 128 ≡ true
unfolding holds_up_to
high_table = refl

is_reply-low : (c sn : ℕ) (xs : Bytes) → c < 128 → is_reply (packet c sn xs) ≡ some false
unfolding is_reply packet
is_reply-low c sn xs low = rw (holds_at (λ j. bit_and j reply_mask == 0) 128 low_table c low)

pub is_reply-high :
    (c sn : ℕ) (xs : Bytes) → 128 ≤ c → c < 256 → is_reply (packet c sn xs) ≡ some true
unfolding is_reply packet
is_reply-high c sn xs high byte =
    let split : 128 + (c - 128) ≡ c = omega arith in
    let bit =
      holds_at (λ j. not (bit_and (128 + j) reply_mask == 0)) 128 high_table (c - 128)
        (omega arith) in
    ap some (ap (λ (j : ℕ). not (bit_and j reply_mask == 0)) (sym split) ∙ bit)

-- A block that is whole, on top of the heap, when its last byte has been stored.
abbrev pub complete : Serial → (p n d k : ℕ) → Bytes → Serial
complete w p n d k block = record w { heap = (p, block) ∷ w.heap; rcv = inside p n d k }

-- The statics after a packet was handed on.
abbrev pub done : (n d : ℕ) → Receiver
done n d = inside null n d 0

finish_error :
    (host : Host) (e : ErrCode) (buf : Ptr) (w : Serial)
    → e ≢ err_ok
    → finish host e buf w ≡ ser_hal_free buf (record w { rcv = record w.rcv { i = 0 } })
unfolding finish
finish_error host err_ok buf w bad = absurd (bad refl)
finish_error host _ buf w bad = refl

-- A command was served: it is answered, its block is freed, and all else is kept.
pub record Served (host : Host) (w : Serial) (r : Receiver) (sn : ℕ) (answer : Bytes)
    (result : Option (Unit {0} × Serial)) : Type 0 where
  pub after : Serial
  pub returns : result ≡ some (tt, after)
  pub kept : Kept (record w { rcv = r }) after
  pub dealt_on : Heap
  pub room : ℕ
  pub outcome :
      Outcome host dealt_on room w after (packet ok_reply sn answer) (packet nomem_reply sn [])

module _ (host : Host) (w : Serial) (p n d k : ℕ) (given : p ≢ null)
    (fresh : find_block p w.heap ≡ none) where
  -- A block that fails the check is freed, and nothing else happens.
  pub end_packet_rejects :
      (block : Bytes) (e : ErrCode)
      → mac_parse block ≡ some e
      → e ≢ err_ok
      → end_packet host (complete w p n d k block) ≡ some (tt, record w { rcv = inside p n d 0 })
  unfolding end_packet
  end_packet_rejects block e checks bad = rw (
    load_block_lem (complete w p n d k block) p (find_block-top p block w.heap),
    checks,
    finish_error host e p (complete w p n d k block) bad,
    free-top (complete w p n d 0 block) p {b = block} {h = w.heap} given fresh refl,
  )

  -- A packet with the reply bit is given to the sending thread, block and all.
  pub end_packet-reply :
      (c sn : ℕ) (xs : Bytes)
      → 128 ≤ c
      → c < 256
      → end_packet host (complete w p n d k (packet c sn xs))
        ≡ some (
          tt,
          record w {
            heap = (p, packet c sn xs) ∷ w.heap;
            rcv = done n d;
            replied = 1;
            replied_pkt = p;
          },
        )
  unfolding end_packet finish hand_on ser_hal_tellsend
  end_packet-reply c sn xs high byte =
      let block = packet c sn xs in
      let held = load_block_lem (complete w p n d k block) p (find_block-top p block w.heap) in
      rw (held, mac_parse-packet c sn xs, held, is_reply-high c sn xs high byte)

  -- A command is served by the handler of its number.
  pub end_packet-Served :
      (c sn : ℕ) (xs : Bytes)
      → c ≢ 0
      → c < 128
      → length xs ≤ 249
      → Served host w
          (done n d)
          sn
          (answer_of (handler_of c) xs)
          (end_packet host (complete w p n d k (packet c sn xs)))
  unfolding end_packet finish hand_on print
  end_packet-Served c sn xs nz low small =
      let block = packet c sn xs in
      let v = complete w p n d k block in
      let top = find_block-top p block w.heap in
      let held = load_block_lem v p top in
      let dealt = ser_cmd_dealcmd-Dealt host p c sn xs v given top small nz in
      let after = record dealt.after {
        heap = w.heap;
        rcv = done n d;
        console = dealt.after.console ++ 0x0a ∷ [];
      } in
      record {
        after = after;
        returns =
            rw
              (
                held,
                mac_parse-packet c sn xs,
                held,
                is_reply-low c sn xs low,
                dealt.returns,
                free-top (printed (0x0a ∷ []) dealt.after) p {b = block} {h = w.heap} given fresh
                    dealt.kept.heap,
              )
              (ap (λ r. some (tt, record after { rcv = record r { i = 0; buf = null } }))
                dealt.kept.rcv);
        kept = record {
          heap = refl;
          rcv = refl;
          send_sn = dealt.kept.send_sn;
          timeout = dealt.kept.timeout;
          replied = dealt.kept.replied;
          replied_pkt = dealt.kept.replied_pkt;
        };
        dealt_on = v.heap;
        room = room_of (handler_of c) xs;
        outcome = Outcome-same refl refl dealt.outcome;
      }

  -- Command 0 is found at the table's terminator, whose function is NULL: the call is undefined.
  pub end_packet_zero :
      (sn : ℕ) (xs : Bytes) → end_packet host (complete w p n d k (packet 0 sn xs)) ≡ none
  unfolding end_packet finish hand_on ser_cmd_dealcmd find_handler find_loop
  end_packet_zero sn xs =
      let block = packet 0 sn xs in
      let v = complete w p n d k block in
      let top = find_block-top p block w.heap in
      let held = load_block_lem v p top in
      rw (
        held,
        mac_parse-packet 0 sn xs,
        held,
        is_reply-low 0 sn xs (omega arith),
        ≢→== p null given,
        dump_pkt_lem v p top (sized-packet 0 sn xs),
        load_u8_lem (printed (dump block) v) p top 5 (cmd-packet 0 sn xs),
      )
