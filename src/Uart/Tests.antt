-- ===== src/Uart/Tests.antt =====
-- Runs of the protocol at concrete inputs, and the theorems at inputs that meet their hypotheses.
use clpsz_demos.Base.{
  ◌+◌, AreBytes, joined, u8, true, All, set, get_elem?, ltb, if◌then◌else◌, ◌≡◌, refl, Option, none,
  some, List, [], ◌∷◌, ◌++◌, arith, length, Bytes, codes,
}
use clpsz_demos.Debug.{dump}
use clpsz_demos.Uart.Packet.{err_ok, mac_parse, is_reply, build_pkt}
use clpsz_demos.Uart.Packet.RoundTrip.{packet}
use clpsz_demos.Uart.Packet.Checksum.{xor_all}
use clpsz_demos.Uart.State.{
  Heap, Serial, find_block, put_block, remove_block, source_of, load, load_u8, load_block, store,
  store_block, ser_hal_malloc, ser_hal_free, ser_hal_write, dump_pkt, print,
}
use clpsz_demos.Uart.Block.{read_bytes, write_bytes}
use clpsz_demos.Uart.Receive.{
  ser_cmd_rcv, rcv_byte, rcv_head, rcv_body, start_packet, end_packet, finish, hand_on,
  ser_hal_tellsend,
}
use clpsz_demos.Uart.Command.{
  ser_cmd_dealcmd, find_handler, find_loop, run_func, answer_text, respond, checked, send_reply,
  ser_cmd_reply,
}
use clpsz_demos.Uart.Packet.{err_sum, err_fmt}
use clpsz_demos.Uart.Packet.RoundTrip.{mac_parse-packet, build_pkt-mac_parse}
use clpsz_demos.Uart.Packet.Corruption.{mac_parse-set}
use clpsz_demos.Uart.Command.Handlers.{answer_of, room_of}
use clpsz_demos.Uart.Command.Reply.{handler_of}
use clpsz_demos.Uart.Command.Deal.{Dealt, ser_cmd_dealcmd-Dealt}
use clpsz_demos.Uart.Receive.Assembly.{IsIdle}
use clpsz_demos.Uart.Receive.Sessions.{Turn, IsTurn, stream, answers, After, ser_cmd_rcv-answers}
use clpsz_demos.Uart.Receive.Errors.{rcv_damaged, rcv_command_zero, rcv_lost}
use clpsz_demos.Uart.Send.{ser_cmd_send, set_to}
use clpsz_demos.Uart.Decode.{hunting, decode, scan, judge, answers_to}
use clpsz_demos.Uart.Send.Waiting.{IsQuiet, ser_cmd_send-waits}
use clpsz_demos.Uart.Pair.{written, Conversed, ser_cmd_send-ser_cmd_rcv}
use clpsz_demos.Uart.Send.Exchange.{handed, Exchanged, ser_cmd_send-Exchanged}
use clpsz_demos.Uart.Sample.{plain, plain_malloc, top, zeros, start, plain-Plenty}

after : Bytes → Option (Heap × List Bytes)
unfolding ser_cmd_rcv rcv_byte rcv_head rcv_body start_packet end_packet finish hand_on
    ser_hal_tellsend mac_parse is_reply ser_cmd_dealcmd dump_pkt dump find_handler find_loop
    run_func answer_text respond checked send_reply ser_cmd_reply build_pkt source_of load load_u8
    load_block store store_block ser_hal_malloc ser_hal_free ser_hal_write print plain_malloc top
    zeros find_block put_block remove_block read_bytes write_bytes
after chs = elim (ser_cmd_rcv plain chs start) [ none ↦ none | some (e, w) ↦ some (w.heap, w.wire) ]

discover_answered : after (packet 1 7 []) ≡ some ([], packet 0x80 7 (codes "discover") ∷ [])
unfolding after packet xor_all
discover_answered = refl

unknown_answered :
    after (packet 0x10 9 (codes "ab")) ≡ some ([], packet 0x80 9 (codes "notimplement") ∷ [])
unfolding after packet xor_all
unknown_answered = refl

echo_answered :
    after (packet 0x61 3 (codes "hello")) ≡ some ([], packet 0x80 3 (codes "hello") ∷ [])
unfolding after packet xor_all
echo_answered = refl

-- Command 0 calls the NULL of the table's terminator.
command_zero_faults : after (packet 0 3 []) ≡ none
unfolding after packet xor_all
command_zero_faults = refl

ready : IsIdle (start).rcv
ready = record { at_start = refl; head_size = refl }

-- Noise, then a discover; then an echo with no noise.
abbrev turns : List Turn
turns =
    record { noise = codes "xy"; request = record { cmd = 1; sn = 7; payload = [] } }
    ∷ record { noise = []; request = record { cmd = 0x61; sn = 8; payload = codes "hello" } }
    ∷ []

turns_good : All IsTurn turns
turns_good = (
  record {
    quiet = ((λ q. absurd (omega arith)), ((λ q. absurd (omega arith)), tt));
    good = record {
      not_zero = λ q. absurd (omega arith);
      no_reply_bit = omega arith;
      fits = omega arith;
    };
  },
  (
    record {
      quiet = tt;
      good = record {
        not_zero = λ q. absurd (omega arith);
        no_reply_bit = omega arith;
        fits = omega arith;
      };
    },
    tt,
  ),
)

ser_cmd_rcv-answers_example :
    (v : Serial) × (ser_cmd_rcv plain (stream turns) start ≡ some (err_ok, v))
    × After start (answers turns) v
ser_cmd_rcv-answers_example = ser_cmd_rcv-answers plain turns start plain-Plenty turns_good ready

-- The state of a thread that has the payload to send in a block of its own.
abbrev with_payload : Serial
with_payload = record start { heap = (5, codes "..hello") ∷ []; send_sn = 255 }

ser_cmd_send-Exchanged_example :
    (v : Serial) × (e : Exchanged true with_payload
      (packet 0x61 255 (codes "hello"))
      (packet 0x80 255 (codes "hello"))
      v)
    × (ser_cmd_send plain 77 0x61
          (some (5, 2))
          5
          true
          (packet 0x80 255 (codes "hello") ∷ [])
          with_payload
        ≡ some (some (77, set_to e.reply_at), v))
unfolding find_block
ser_cmd_send-Exchanged_example =
    ser_cmd_send-Exchanged plain 77 0x61 5 2 (codes "..hello") (codes "hello") [] true 0x80 255
      (codes "hello") with_payload plain-Plenty refl refl (omega arith) (omega arith) (omega arith)
      (omega arith) ready refl

ser_cmd_send-ser_cmd_rcv_example :
    (v : Serial) × (t : Serial) × (c : Conversed true
      (record { cmd = 0x61; sn = 255; payload = codes "hello" })
      with_payload
      start
      v
      t)
    × (ser_cmd_send plain 77 0x61 (some (5, 2)) 5 true (written start t ∷ []) with_payload
        ≡ some (some (77, handed true c.exchanged.reply_at), v))
    × (ser_cmd_rcv plain (written with_payload v) start ≡ some (err_ok, t))
unfolding find_block
ser_cmd_send-ser_cmd_rcv_example =
    ser_cmd_send-ser_cmd_rcv plain plain 77 0x61 5 2 (codes "..hello") (codes "hello") [] true
      with_payload start plain-Plenty plain-Plenty refl refl
      (record {
        not_zero = λ q. absurd (omega arith);
        no_reply_bit = omega arith;
        fits = omega arith;
      })
      ready refl ready

-- Noise, a damaged packet and a command of the other side, in two sleeps.
abbrev no_reply : List Bytes
no_reply = (7 ∷ set (packet 1 4 []) 4 9) ∷ packet 0x61 3 (codes "hi") ∷ []

no_reply_bytes : AreBytes (joined no_reply)
unfolding packet xor_all
no_reply_bytes = omega arith

no_reply-IsQuiet : All IsQuiet (decode hunting (joined no_reply))
unfolding decode scan judge packet xor_all
no_reply-IsQuiet = (tt, (tt, tt))

ser_cmd_send-waits_example :
    (v : Serial) × (ser_cmd_send plain 77 0x61 (some (5, 2)) 5 true no_reply with_payload
      ≡ some (none, v))
    × (v.wire
        ≡ [] ++ packet 0x61 255 (codes "hello") ∷ answers_to (decode hunting (joined no_reply)))
    × (v.send_sn ≡ u8 (255 + 1))
unfolding find_block
ser_cmd_send-waits_example =
    ser_cmd_send-waits plain 77 0x61 5 2 (codes "..hello") (codes "hello") [] true no_reply
      with_payload plain-Plenty refl refl (omega arith) ready refl no_reply_bytes no_reply-IsQuiet

rcv_damaged_example :
    (v : Serial) × (ser_cmd_rcv plain
        (set (packet 0x61 3 (codes "hello")) 6 b'j' ++ codes "z")
        start
      ≡ ser_cmd_rcv plain (codes "z") v)
    × After start [] v
unfolding packet
rcv_damaged_example =
    rcv_damaged plain 0x61 3 (codes "hello") (codes "z") start plain-Plenty (omega arith) ready 6
      b'h' b'j' (omega arith) refl (λ q. absurd (omega arith))

mac_parse-set_example :
    mac_parse (set (packet 2 9 []) 4 8) ≡ some (if ltb 4 2 then err_fmt else err_sum)
unfolding packet
mac_parse-set_example =
    mac_parse-set (packet 2 9 []) refl (omega arith) 4 8 (mac_parse-packet 2 9 []) refl
      (λ q. absurd (omega arith)) (λ q. absurd (omega arith))

build_pkt-mac_parse_example :
    (pkt : Bytes) × (build_pkt 0x61 4 (zeros 8) (some (codes "ab" ++ codes "c")) 2 ≡ some pkt)
    × (mac_parse pkt ≡ some err_ok)
    × (get_elem? pkt 2 ≡ some (length pkt))
    × (get_elem? pkt 4 ≡ some 4)
    × (get_elem? pkt 5 ≡ some 0x61)
    × (read_bytes 6 2 pkt ≡ some (codes "ab"))
unfolding zeros
build_pkt-mac_parse_example =
    build_pkt-mac_parse 0x61 4 (codes "ab") (codes "c") (zeros 8) (omega arith) refl

-- A packet in a block, as the receiver hands it to ser_cmd_dealcmd.
abbrev with_packet : Serial
with_packet = record start { heap = (5, packet 2 9 []) ∷ [] }

ser_cmd_dealcmd-Dealt_example :
    Dealt plain with_packet 9
      (room_of (handler_of 2) [])
      (answer_of (handler_of 2) [])
      (ser_cmd_dealcmd plain 5 with_packet)
unfolding find_block
ser_cmd_dealcmd-Dealt_example =
    ser_cmd_dealcmd-Dealt plain 5 2 9 [] with_packet (λ q. absurd (omega arith)) refl (omega arith)
      (λ q. absurd (omega arith))

rcv_command_zero_example : ser_cmd_rcv plain (packet 0 3 (codes "q") ++ codes "z") start ≡ none
rcv_command_zero_example =
    rcv_command_zero plain 3 (codes "q") (codes "z") start plain-Plenty (omega arith) ready

rcv_lost_example :
    (v : Serial) × (ser_cmd_rcv plain (0x40 ∷ packet 2 9 [] ++ packet 1 4 []) start
      ≡ ser_cmd_rcv plain (packet 1 4 []) v)
    × After start [] v
unfolding packet xor_all
rcv_lost_example =
    rcv_lost plain 2 9 [] (packet 1 4 []) start
      (
        (λ q. absurd (omega arith)),
        (
          (λ q. absurd (omega arith)),
          ((λ q. absurd (omega arith)), ((λ q. absurd (omega arith)), tt)),
        ),
      )
      ready
