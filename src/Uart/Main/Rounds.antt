-- ===== src/Uart/Main/Rounds.antt =====
-- The endless loop of main.c with a device that answers.
use clpsz_demos.Base.{
  ℕ, zero, suc, ◌+◌, ◌≡◌, refl, sym, ap, ◌∙◌, false, none, some, List, [], ◌∷◌, ◌++◌, Bytes, All,
  arith, length, take, drop, length-drop, length-take, append_assoc, append-nil, u8,
}
use clpsz_demos.Uart.Packet.{err_ok}
use clpsz_demos.Uart.State.{Ptr, Host, Serial, find_block, remove_block}
use clpsz_demos.Uart.State.Laws.{find_block-top, remove_block-top}
use clpsz_demos.Uart.Receive.{ser_cmd_rcv}
use clpsz_demos.Uart.Receive.Assembly.{IsIdle}
use clpsz_demos.Uart.Receive.Sessions.{Plenty, Request, IsRequest, request_packet, answer_packet}
use clpsz_demos.Uart.Send.{ser_cmd_send}
use clpsz_demos.Uart.Pair.{written, ser_cmd_send-ser_cmd_rcv}
use clpsz_demos.Uart.Main.{little_endian}
use clpsz_demos.Uart.Main.Options.{to_Filled}
use clpsz_demos.Uart.Main.Loop.{Stack, send_10_now}

-- The payload of a call of _send_10.
abbrev pub card_and : Stack → Bytes
card_and s = little_endian 8 123456789 ++ take 8 (drop 8 s.array)

unfoldable pub IsStack : Stack → Type 0
IsStack s = length s.array ≡ 512

abbrev pub request_10 : (sn : ℕ) → Stack → Request
request_10 sn s = record { cmd = 0x10; sn = sn; payload = card_and s }

-- The rounds of the loop and what the other device does meanwhile: what each of them writes in a
-- round is what the other one reads.
pub data Rounds (host peer : Host) (frame : Ptr) : List Stack → (w u v t : Serial) → Type 0 where
  finished : {w u : Serial} → Rounds host peer frame [] w u w u
  round :
      {s : Stack} {rest : List Stack} {w u w' u' v t : Serial}
      → send_10_now host frame s (written u u' ∷ []) w ≡ some (some tt, w')
      → ser_cmd_rcv peer (written w w') u ≡ some (err_ok, u')
      → Rounds host peer frame rest w' u' v t
      → Rounds host peer frame (s ∷ rest) w u v t

-- The packets of the rounds, and the answers.
abbrev pub requests_10 : (sn : ℕ) → List Stack → List Bytes
requests_10 sn [] = []
requests_10 sn (s ∷ rest) = request_packet (request_10 sn s) ∷ requests_10 (u8 (sn + 1)) rest

abbrev pub answers_10 : (sn : ℕ) → List Stack → List Bytes
answers_10 sn [] = []
answers_10 sn (s ∷ rest) = answer_packet (request_10 sn s) ∷ answers_10 (u8 (sn + 1)) rest

-- The two devices after some rounds.
pub record AfterRounds (stacks : List Stack) (w u v t : Serial) : Type 0 where
  pub heap : v.heap ≡ w.heap
  pub wire : v.wire ≡ w.wire ++ requests_10 w.send_sn stacks
  pub peer_heap : t.heap ≡ u.heap
  pub peer_wire : t.wire ≡ u.wire ++ answers_10 w.send_sn stacks

take-drop : (n : ℕ) (xs : Bytes) → xs ≡ take n xs ++ drop n xs
take-drop zero xs = refl
take-drop (suc n) [] = refl
take-drop (suc n) (x ∷ xs) = ap (x ∷◌) (take-drop n xs)

length-card_and : (s : Stack) → IsStack s → length (card_and s) ≡ 16
unfolding IsStack little_endian
length-card_and s size = omega (arith, length-take 8 (drop 8 s.array), length-drop 8 s.array)

-- What was written in one round and then in the others.
written_then :
    {last next : List Bytes} (first : List Bytes) (b : Bytes) (bs cs : List Bytes)
    → last ≡ next ++ bs
    → next ≡ first ++ b ∷ []
    → bs ≡ cs
    → last ≡ first ++ b ∷ cs
written_then first b bs cs later now same =
    later ∙ ap (◌++ bs) now ∙ append_assoc first (b ∷ []) bs ∙ ap (λ t. first ++ b ∷ t) same

module _ (host peer : Host) (frame : Ptr) (plenty : Plenty host) (peer_plenty : Plenty peer) where
  record Round (s : Stack) (w u : Serial) : Type 0 where
    w' : Serial
    u' : Serial
    sends : send_10_now host frame s (written u u' ∷ []) w ≡ some (some tt, w')
    serves : ser_cmd_rcv peer (written w w') u ≡ some (err_ok, u')
    heap : w'.heap ≡ w.heap
    wire : w'.wire ≡ w.wire ++ request_packet (request_10 w.send_sn s) ∷ []
    next_sn : w'.send_sn ≡ u8 (w.send_sn + 1)
    waiting : w'.replied ≡ 0
    idle : IsIdle w'.rcv
    peer_heap : u'.heap ≡ u.heap
    peer_wire : u'.wire ≡ u.wire ++ answer_packet (request_10 w.send_sn s) ∷ []
    peer_idle : IsIdle u'.rcv

  to_Round :
      (s : Stack) (w u : Serial)
      → IsStack s
      → find_block frame w.heap ≡ none
      → IsIdle w.rcv
      → w.replied ≡ 0
      → IsIdle u.rcv
      → Round s w u
  unfolding IsStack send_10_now
  to_Round s w u size free ready waiting peer_ready =
      let f = to_Filled s.array size in
      let xs = card_and s in
      let long = length-card_and s size in
      let framed = record w { heap = (frame, f.buf) ∷ w.heap } in
      let readable : f.buf ≡ xs ++ drop 16 f.buf =
        take-drop 16 f.buf ∙ ap (◌++ drop 16 f.buf) f.front in
      let is : IsRequest (request_10 w.send_sn s) = record {
        not_zero = λ q. absurd (omega arith);
        no_reply_bit = omega arith;
        fits = omega (arith, long);
      } in
      let (v, t, c, sends, serves) =
        ser_cmd_send-ser_cmd_rcv host peer s.ret_res 0x10 frame 0 f.buf xs (drop 16 f.buf) false
          framed u plenty peer_plenty (find_block-top frame f.buf w.heap) readable is ready waiting
          peer_ready in
      let e = c.exchanged in
      let sends_16 =
        ap
          (λ (n : ℕ).
            ser_cmd_send host s.ret_res 0x10 (some (frame, 0)) n false (written u t ∷ []) framed)
          (sym long)
        ∙ sends in
      record {
        w' = record v { heap = remove_block frame v.heap };
        u' = t;
        sends = rw (f.result, sends_16);
        serves = serves;
        heap = ap (remove_block frame) e.reply_kept ∙ remove_block-top frame f.buf w.heap free;
        wire = e.request_sent;
        next_sn = e.next_sn;
        waiting = e.flag_reset;
        idle = e.idle_again;
        peer_heap = c.served.heap;
        peer_wire = c.served.wire;
        peer_idle = c.served.idle_again;
      }

  -- The endless loop of the sending device, with a device that answers: however often it has gone
  -- round, ser_cmd_send has come back in every round, its packets are on the wire, each with the
  -- card number, with eight bytes of the stack and under the next serial number, the other device
  -- has answered each of them under its own number, and neither device has lost memory.
  pub send_10_now-Rounds :
      (stacks : List Stack) (w u : Serial)
      → All IsStack stacks
      → find_block frame w.heap ≡ none
      → IsIdle w.rcv
      → w.replied ≡ 0
      → IsIdle u.rcv
      → (v : Serial) × (t : Serial) × Rounds host peer frame stacks w u v t
        × AfterRounds stacks w u v t
  send_10_now-Rounds [] w u sizes free ready waiting peer_ready = (
    w,
    u,
    finished,
    record {
      heap = refl;
      wire = sym (append-nil w.wire);
      peer_heap = refl;
      peer_wire = sym (append-nil u.wire);
    },
  )
  send_10_now-Rounds (s ∷ rest) w u sizes free ready waiting peer_ready =
      let r = to_Round s w u sizes.0 free ready waiting peer_ready in
      let (v, t, rounds, after) =
        send_10_now-Rounds rest r.w' r.u' sizes.1 (ap (find_block frame) r.heap ∙ free) r.idle
          r.waiting r.peer_idle in
      (
        v,
        t,
        round r.sends r.serves rounds,
        record {
          heap = after.heap ∙ r.heap;
          wire =
              written_then w.wire (request_packet (request_10 w.send_sn s))
                (requests_10 r.w'.send_sn rest) (requests_10 (u8 (w.send_sn + 1)) rest) after.wire
                r.wire (ap (λ (n : ℕ). requests_10 n rest) r.next_sn);
          peer_heap = after.peer_heap ∙ r.peer_heap;
          peer_wire =
              written_then u.wire (answer_packet (request_10 w.send_sn s))
                (answers_10 r.w'.send_sn rest) (answers_10 (u8 (w.send_sn + 1)) rest)
                after.peer_wire r.peer_wire (ap (λ (n : ℕ). answers_10 n rest) r.next_sn);
        },
      )
