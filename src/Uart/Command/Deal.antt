-- ===== src/Uart/Command/Deal.antt =====
-- ser_cmd_dealcmd on a checked packet: which answer goes out, and that all else is kept.
use clpsz_demos.Base.{
  ℕ, ◌+◌, ◌-◌, ◌^◌, ◌≤◌, ◌≡◌, ◌≢◌, refl, sym, ap, ◌∙◌, inl, inr, Option, none, some, List, [], ◌∷◌,
  ◌++◌, arith, ≢→==, length, get_elem?, Bytes, u32, codes,
}
use clpsz_demos.Debug.{dump}
use clpsz_demos.Uart.Block.{read_bytes, read_bytes_whole}
use clpsz_demos.Uart.Packet.{ErrCode, err_ok, err_nomem, hdr_len}
use clpsz_demos.Uart.Packet.RoundTrip.{packet, length-packet, sized-packet}
use clpsz_demos.Uart.State.{Ptr, null, Heap, find_block, Host, Serial, print, and_then}
use clpsz_demos.Uart.State.Laws.{
  with_heap, sent, printed, find_block-top, find_block_below, ne_of_find, load_u8_lem, free-top,
  free-null, dump_pkt_lem,
}
use clpsz_demos.Uart.Command.{
  Func, discover, send_05, echo_back, notimplement, run_func, ser_cmd_dealcmd, send_reply, checked,
  respond,
}
use clpsz_demos.Uart.Command.Handlers.{answer_of, room_of, Answered, Failed, run_func-cases}
use clpsz_demos.Uart.Command.Reply.{reply_empty, reply_with, handler_of, find_handler-Found}

-- Everything but the wire and the console is as before.
pub record Kept (w w' : Serial) : Type 0 where
  pub heap : w'.heap ≡ w.heap
  pub rcv : w'.rcv ≡ w.rcv
  pub send_sn : w'.send_sn ≡ w.send_sn
  pub timeout : w'.timeout ≡ w.timeout
  pub replied : w'.replied ≡ w.replied
  pub replied_pkt : w'.replied_pkt ≡ w.replied_pkt

-- `Kept` by computation: the states differ in the wire and the console alone.
pub Kept-refl :
    {w : Serial} {wire : List Bytes} {flushes : ℕ} {console : Bytes}
    → Kept w (record w { wire = wire; flushes = flushes; console = console })
Kept-refl = record {
  heap = refl;
  rcv = refl;
  send_sn = refl;
  timeout = refl;
  replied = refl;
  replied_pkt = refl;
}

-- What has gone out, for a packet that is dealt with on the heap `h` by a handler that asks for
-- `room` bytes: the answer; an error, when there was no such block; or nothing, when there was
-- such a block but behind it none for the answer, or neither the block nor one for the error.
pub data Outcome (host : Host) (h : Heap) (room : ℕ) (w w' : Serial) (answer no_memory : Bytes)
    : Type 0 where
  answered : w'.wire ≡ w.wire ++ answer ∷ [] → Outcome host h room w w' answer no_memory
  refused :
      host.malloc h room ≡ none
      → w'.wire ≡ w.wire ++ no_memory ∷ []
      → Outcome host h room w w' answer no_memory
  silent_answer :
      (p : Ptr) (block : Bytes)
      → find_block p h ≡ none
      → length block ≡ room
      → host.malloc ((p, block) ∷ h) (length answer) ≡ none
      → w'.wire ≡ w.wire
      → Outcome host h room w w' answer no_memory
  silent_error :
      host.malloc h room ≡ none
      → host.malloc h (length no_memory) ≡ none
      → w'.wire ≡ w.wire
      → Outcome host h room w w' answer no_memory

-- A print before changes neither.
Kept-printed : {w w' : Serial} (text : Bytes) → Kept (printed text w) w' → Kept w w'
Kept-printed text k = record {
  heap = k.heap;
  rcv = k.rcv;
  send_sn = k.send_sn;
  timeout = k.timeout;
  replied = k.replied;
  replied_pkt = k.replied_pkt;
}

-- The outcome is about the wires alone.
pub Outcome-same :
    {host : Host} {h : Heap} {room : ℕ} {w w' v v' : Serial} {a b : Bytes}
    → v.wire ≡ w.wire
    → v'.wire ≡ w'.wire
    → Outcome host h room v v' a b
    → Outcome host h room w w' a b
Outcome-same {a} p q (answered e) = answered (sym q ∙ e ∙ ap (λ t. t ++ a ∷ []) p)
Outcome-same {b} p q (refused no_room e) = refused no_room (sym q ∙ e ∙ ap (λ t. t ++ b ∷ []) p)
Outcome-same p q (silent_answer at block fresh size no_room e) =
    silent_answer at block fresh size no_room (sym q ∙ e ∙ p)
Outcome-same p q (silent_error no_block no_room e) = silent_error no_block no_room (sym q ∙ e ∙ p)

-- The codes of the two answers: err_ok and err_nomem with the reply bit.
abbrev pub ok_reply : ℕ
ok_reply = 0x80

abbrev pub nomem_reply : ℕ
nomem_reply = 0x85

pub record Dealt (host : Host) (w : Serial) (sn room : ℕ) (answer : Bytes)
    (result : Option (ErrCode × Serial)) : Type 0 where
  pub after : Serial
  pub returns : result ≡ some (err_ok, after)
  pub kept : Kept w after
  pub outcome :
      Outcome host w.heap room w after (packet ok_reply sn answer) (packet nomem_reply sn [])

module _ (host : Host) (pkt : Ptr) (c sn : ℕ) (xs : Bytes) (w : Serial) (given : pkt ≢ null)
    (found : find_block pkt w.heap ≡ some (packet c sn xs)) (small : length xs ≤ 249) where
  has_sn : get_elem? (packet c sn xs) 4 ≡ some sn
  unfolding packet
  has_sn = refl

  has_cmd : get_elem? (packet c sn xs) 5 ≡ some c
  unfolding packet
  has_cmd = refl

  reads : read_bytes 6 (length xs) (packet c sn xs) ≡ some xs
  unfolding packet read_bytes
  reads = read_bytes_whole xs

  -- PKT_DATALEN is the length of the payload.
  datalen : u32 (length (packet c sn xs) + 2 ^ 32 - hdr_len) ≡ length xs
  datalen = omega (arith, length-packet c sn xs)

  -- The handler ran, and its answer goes out.
  respond-Answered :
      (f : Func)
      → (got : Answered host f pkt xs w) → length (answer_of f xs) ≤ 249
      → Dealt host w sn (room_of f xs) (answer_of f xs) (
          respond host pkt
            (err_ok, got.at)
            (with_heap ((got.at, length (answer_of f xs) ∷ answer_of f xs ++ got.more) ∷ w.heap) w))
  unfolding respond send_reply checked
  respond-Answered f got fits =
      let ans = answer_of f xs in
      let block = length ans ∷ ans ++ got.more in
      let w1 = with_heap ((got.at, block) ∷ w.heap) w in
      let top = find_block-top got.at block w.heap in
      let other =
        find_block_below pkt got.at block w.heap (ne_of_find pkt got.at w.heap found got.fresh)
        ∙ found in
      elim (reply_with host pkt ok_reply sn got.at (length ans) ans got.more w1 given other has_sn
        fits top) [
          | inl uns ↦ record {
            after = w;
            returns = rw (
              ≢→== got.at null got.ne_null,
              load_u8_lem w1 got.at top 0 {x = length ans} refl,
              uns.nothing,
              free-top w1 got.at {b = block} {h = w.heap} got.ne_null got.fresh refl,
            );
            kept = Kept-refl;
            outcome =
                silent_answer got.at block got.fresh got.size
                  (ap (host.malloc ((got.at, block) ∷ w.heap)) (length-packet ok_reply sn ans)
                    ∙ uns.no_memory)
                  refl;
          }
          | inr e ↦ record {
            after = sent host (packet ok_reply sn ans) w;
            returns = rw (
              ≢→== got.at null got.ne_null,
              load_u8_lem w1 got.at top 0 {x = length ans} refl,
              e,
              free-top (sent host (packet ok_reply sn ans) w1) got.at {b = block} {h = w.heap}
                  got.ne_null got.fresh refl,
            );
            kept = Kept-refl;
            outcome = answered refl;
          }
        ]

  -- The handler failed for want of memory.
  respond-Failed :
      (f : Func)
      → Failed host f pkt xs w
      → Dealt host w sn (room_of f xs) (answer_of f xs) (respond host pkt (err_nomem, null) w)
  unfolding respond send_reply checked print packet
  respond-Failed f lack =
      let w1 = printed (codes "error!") w in
      elim (reply_empty host pkt nomem_reply sn w1 given found has_sn) [
        | inl uns ↦ record {
          after = w1;
          returns = rw (uns.nothing, free-null w1);
          kept = Kept-refl;
          outcome = silent_error lack.no_memory uns.no_memory refl;
        }
        | inr e ↦ record {
          after = sent host (packet nomem_reply sn []) w1;
          returns = rw (e, free-null (sent host (packet nomem_reply sn []) w1));
          kept = Kept-refl;
          outcome = refused lack.no_memory refl;
        }
      ]

pub length-answer_of : (f : Func) (xs : Bytes) → length xs ≤ 249 → length (answer_of f xs) ≤ 249
unfolding answer_of
length-answer_of discover xs h = omega arith
length-answer_of send_05 xs h = omega arith
length-answer_of echo_back xs h = h
length-answer_of notimplement xs h = omega arith

-- The handler and what follows it.
module _ (host : Host) (pkt : Ptr) (c sn : ℕ) (xs : Bytes) (w : Serial) (given : pkt ≢ null)
    (found : find_block pkt w.heap ≡ some (packet c sn xs)) (small : length xs ≤ 249) where
  handle :
      (f : Func)
      → Dealt host w sn
          (room_of f xs)
          (answer_of f xs)
          (and_then (run_func host f (pkt, 6) (length xs) w) (λ (r, v). respond host pkt r v))
  handle f =
      elim (run_func-cases host f pkt xs w found (reads host pkt c sn xs w given found small)
        small) [
          | inl lack ↦ rw lack.result (respond-Failed host pkt c sn xs w given found small f lack)
          | inr got ↦ rw got.result (
              respond-Answered host pkt c sn xs w given found small f got
                (length-answer_of f xs small))
        ]

-- A packet with a command other than 0 is dealt with by the handler of its command: ser_cmd_dealcmd
-- returns err_ok, the heap and the static variables are as before, and one packet has gone out
-- under the packet's own sn, the handler's answer or, where the handler found no memory, an
-- error; or none, where there was no memory for that packet.
pub ser_cmd_dealcmd-Dealt :
    (host : Host) (pkt : Ptr) (c sn : ℕ) (xs : Bytes) (w : Serial)
    → pkt ≢ null
    → find_block pkt w.heap ≡ some (packet c sn xs)
    → length xs ≤ 249
    → c ≢ 0
    → Dealt host w sn
        (room_of (handler_of c) xs)
        (answer_of (handler_of c) xs)
        (ser_cmd_dealcmd host pkt w)
unfolding ser_cmd_dealcmd
ser_cmd_dealcmd-Dealt host pkt c sn xs w given found small nz =
    let v = printed (dump (packet c sn xs)) w in
    let lookup = find_handler-Found c nz in
    let rest = handle host pkt c sn xs v given found small (handler_of c) in
    record {
      after = rest.after;
      returns =
          rw
            (
              ≢→== pkt null given,
              dump_pkt_lem w pkt found (sized-packet c sn xs),
              load_u8_lem v pkt found 5 (has_cmd host pkt c sn xs w given found small),
              lookup.finds,
              lookup.at_index,
              lookup.calls,
              load_u8_lem v pkt found 2 (sized-packet c sn xs),
              datalen host pkt c sn xs w given found small,
            )
            rest.returns;
      kept = Kept-printed (dump (packet c sn xs)) rest.kept;
      outcome = Outcome-same refl refl rest.outcome;
    }
