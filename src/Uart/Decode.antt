-- ===== src/Uart/Decode.antt =====
-- What a receiver of the protocol should make of a stream of bytes, without memory, blocks or
-- static variables: the description that ser_cmd_rcv of ser_cmd.c is held against.
pub mod Packets
mod Tests
use clpsz_demos.Base.{
  ℕ, zero, suc, ◌+◌, ◌-◌, ◌≡◌, Bool, true, false, ◌||◌, Option, none, some, List, [], ◌∷◌, ◌++◌,
  ◌==◌, ltb, if◌then◌else◌, Bytes,
}
use clpsz_demos.Uart.Command.Handlers.{answer_of}
use clpsz_demos.Uart.Command.Reply.{handler_of}
use clpsz_demos.Uart.Packet.Checksum.{xor_all}
use clpsz_demos.Uart.Packet.RoundTrip.{packet}

-- Where in a packet the stream stands. In `collecting n left body` the packet has `n` bytes,
-- `body` came behind its length, and `left` are to come behind the next one.
pub data Scan : Type 0 where
  hunting seen_at seen_head : Scan
  collecting : (n left : ℕ) (body : Bytes) → Scan

-- What the end of a packet means.
pub data Event : Type 0 where
  dropped : Event
  command : (cmd sn : ℕ) (payload : Bytes) → Event
  reply : (block : Bytes) → Event
  -- Command 0, for which the handler table has a NULL function.
  crash : Event

abbrev pub whole : (n : ℕ) → Bytes → Bytes
whole n body = 0x40 ∷ 0x3e ∷ n ∷ body

abbrev pub meant : (cmd sn : ℕ) (payload block : Bytes) → Event
meant cmd sn payload block =
    if ltb cmd 128 then (if cmd == 0 then crash else command cmd sn payload) else reply block

-- All bytes of a good packet have the exclusive or 0.
unfoldable pub judge : (n : ℕ) → (body : Bytes) → Event
judge n (sum ∷ sn ∷ cmd ∷ payload) =
    if xor_all 0 (whole n (sum ∷ sn ∷ cmd ∷ payload)) == 0
    then meant cmd sn payload (whole n (sum ∷ sn ∷ cmd ∷ payload))
    else dropped
judge n body = dropped

-- The next place after one byte, and the event that the byte completes.
unfoldable pub scan : Scan → ℕ → Scan × Option Event
scan hunting x = (if x == 0x40 then seen_at else hunting, none)
scan seen_at x = (if x == 0x3e then seen_head else hunting, none)
scan seen_head x = (if ltb x 6 then hunting else collecting x (x - 4) [], none)
scan (collecting n zero body) x = (hunting, some (judge n (body ++ x ∷ [])))
scan (collecting n (suc left) body) x = (collecting n left (body ++ x ∷ []), none)

abbrev pub also : Option Event → List Event → List Event
also none es = es
also (some e) es = e ∷ es

unfoldable pub decode : Scan → Bytes → List Event
decode s [] = []
decode s (x ∷ xs) = also (scan s x).1 (decode (scan s x).0 xs)

-- The answers that go out, in order.
unfoldable pub answers_to : List Event → List Bytes
answers_to [] = []
answers_to (command c sn xs ∷ es) = packet 0x80 sn (answer_of (handler_of c) xs) ∷ answers_to es
answers_to (_ ∷ es) = answers_to es

-- The blocks that go to the sending thread, the last one first, on top of `older`.
unfoldable pub replies_onto : List Event → (older : List Bytes) → List Bytes
replies_onto [] older = older
replies_onto (reply block ∷ es) older = replies_onto es (block ∷ older)
replies_onto (_ ∷ es) older = replies_onto es older

unfoldable pub crashes : List Event → Bool
crashes [] = false
crashes (crash ∷ es) = true
crashes (_ ∷ es) = crashes es
