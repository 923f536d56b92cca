-- ===== src/Uart/Decode/Tests.antt =====
-- A stream with a stray byte, a command, a damaged packet and a reply, and what it means.
use clpsz_demos.Base.{◌≡◌, refl, [], ◌∷◌, ◌++◌, Bytes, AreBytes, codes, set, arith, some, length}
use clpsz_demos.Uart.Decode.{hunting, command, dropped, reply, crash, decode, scan, judge, crashes}
use clpsz_demos.Uart.Packet.Checksum.{xor_all}
use clpsz_demos.Uart.Packet.RoundTrip.{packet}
use clpsz_demos.Uart.Receive.{ser_cmd_rcv}
use clpsz_demos.Uart.Receive.Stream.{Runs, ser_cmd_rcv-decode}
use clpsz_demos.Uart.Receive.Safety.{Safe, ser_cmd_rcv-Safe}
use clpsz_demos.Uart.Sample.{plain, small, start, plain-Plenty, zeros}
use clpsz_demos.Uart.Packet.{build_pkt}
use clpsz_demos.Uart.Decode.Packets.{build_pkt-decode_wrapped}

abbrev mixed : Bytes
mixed = 7 ∷ packet 0x61 3 (codes "hi") ++ set (packet 1 4 []) 4 9 ++ packet 0x80 5 [] ++ codes "@>"

mixed_means :
    decode hunting mixed ≡ command 0x61 3 (codes "hi") ∷ dropped ∷ reply (packet 0x80 5 []) ∷ []
unfolding decode scan judge xor_all packet
mixed_means = refl

-- Command 0.
null_call : decode hunting (packet 0 1 []) ≡ crash ∷ []
unfolding decode scan judge xor_all packet
null_call = refl

mixed_bytes : AreBytes mixed
unfolding packet xor_all
mixed_bytes = omega arith

ser_cmd_rcv-decode_example :
    Runs
      (crashes (decode hunting mixed))
      (decode hunting mixed)
      start
      (ser_cmd_rcv plain mixed start)
ser_cmd_rcv-decode_example =
    ser_cmd_rcv-decode plain mixed start plain-Plenty mixed_bytes
      (record { at_start = refl; head_size = refl })

-- A packet for which there is no memory, and one with command 0 that ends the stream.
abbrev refused : Bytes
refused = packet 0x61 2 (codes "long") ++ mixed ++ packet 0 6 []

refused_bytes : AreBytes refused
unfolding packet xor_all
refused_bytes = omega arith

ser_cmd_rcv-Safe_example : Safe refused start (ser_cmd_rcv small refused start)
ser_cmd_rcv-Safe_example =
    ser_cmd_rcv-Safe small refused start refused_bytes
      (record { at_start = refl; head_size = refl })

-- 258 bytes: the receiver gets two.
build_pkt-decode_wrapped_example :
    (pkt : Bytes) × (build_pkt 0x61 7 (zeros 264) (some ((codes "hi" ++ zeros 256) ++ [])) 258
      ≡ some pkt)
    × (length pkt ≡ 264)
    × (decode hunting (pkt ++ codes "more")
        ≡ command 0x61 7 (codes "hi") ∷ decode hunting (zeros 256 ++ codes "more"))
unfolding zeros
build_pkt-decode_wrapped_example =
    build_pkt-decode_wrapped 0x61 7 (codes "hi") (zeros 256) [] (zeros 264) (codes "more")
      (omega arith) refl refl (omega arith) (omega arith)
