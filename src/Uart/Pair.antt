-- ===== src/Uart/Pair.antt =====
-- Two devices on one line: what one of them writes is what the other one reads.
use clpsz_demos.Base.{
  ℕ, ◌≡◌, refl, sym, ap, ◌∙◌, Bool, some, List, [], ◌∷◌, ◌++◌, append-nil, arith, length, drop,
  drop-append, joined, Bytes,
}
use clpsz_demos.Uart.Packet.{err_ok}
use clpsz_demos.Uart.State.{Host, Serial, find_block}
use clpsz_demos.Uart.Command.Handlers.{answer_of}
use clpsz_demos.Uart.Command.Reply.{handler_of}
use clpsz_demos.Uart.Command.Deal.{ok_reply, length-answer_of}
use clpsz_demos.Uart.Receive.{ser_cmd_rcv}
use clpsz_demos.Uart.Receive.Assembly.{IsIdle}
use clpsz_demos.Uart.Receive.Sessions.{
  Plenty, Request, IsRequest, request_packet, answer_packet, After, serve_one,
}
use clpsz_demos.Uart.Send.{ser_cmd_send}
use clpsz_demos.Uart.Send.Exchange.{handed, Exchanged, ser_cmd_send-Exchanged}

-- What a device put on the line between two of its states.
abbrev pub written : (before after : Serial) → Bytes
written before after = joined (drop (length before.wire) after.wire)

written_one :
    (before after : Serial) (b : Bytes)
    → after.wire ≡ before.wire ++ b ∷ []
    → written before after ≡ b
written_one before after b one =
    ap (λ (t : List Bytes). joined (drop (length before.wire) t)) one
    ∙ ap joined (drop-append (length before.wire) before.wire (b ∷ []) refl)
    ∙ append-nil b

-- A command that was sent, served and answered: `w` and `v` are the states of the device that
-- sends, before and after, `u` and `t` those of the other one.
pub record Conversed (want : Bool) (q : Request) (w u v t : Serial) : Type 0 where
  pub exchanged : Exchanged want w (request_packet q) (answer_packet q) v
  pub served : After u (answer_packet q ∷ []) t

-- Two devices with memory, each of which gets just the bytes that the other one writes: the
-- command of ser_cmd_send comes through to the handler of the other device, whose ser_cmd_rcv
-- answers it, and the packet that ser_cmd_send takes for the reply is that answer, with the
-- handler's data and the serial number of the command. Both devices are then ready for the next
-- command, and no block is left but the reply that the caller asked for.
pub ser_cmd_send-ser_cmd_rcv :
    (host peer : Host) (ret_res cmd p off : ℕ) (block xs more : Bytes) (want : Bool) (w u : Serial)
    → Plenty host
    → Plenty peer
    → find_block p w.heap ≡ some block
    → drop off block ≡ xs ++ more
    → IsRequest (record { cmd = cmd; sn = w.send_sn; payload = xs })
    → IsIdle w.rcv
    → w.replied ≡ 0
    → IsIdle u.rcv
    → (v : Serial) × (t : Serial) × (c : Conversed want
        (record { cmd = cmd; sn = w.send_sn; payload = xs })
        w
        u
        v
        t)
      × (ser_cmd_send host ret_res cmd (some (p, off)) (length xs) want (written u t ∷ []) w
          ≡ some (some (ret_res, handed want c.exchanged.reply_at), v))
      × (ser_cmd_rcv peer (written w v) u ≡ some (err_ok, t))
unfolding ser_cmd_rcv
ser_cmd_send-ser_cmd_rcv host peer ret_res cmd p off block xs more want w u plenty peer_plenty found
      readable is ready waiting peer_ready =
    let q : Request = record { cmd = cmd; sn = w.send_sn; payload = xs } in
    let answer = answer_of (handler_of cmd) xs in
    let (t, serves, after) = serve_one peer peer_plenty q [] u is peer_ready in
    let (v, e, sends) =
      ser_cmd_send-Exchanged host ret_res cmd p off block xs more want ok_reply w.send_sn answer w
        plenty found readable is.fits (length-answer_of (handler_of cmd) xs is.fits) (omega arith)
        (omega arith) ready waiting in
    (
      v,
      t,
      record { exchanged = e; served = after },
      ap (λ (b : Bytes). ser_cmd_send host ret_res cmd (some (p, off)) (length xs) want (b ∷ []) w)
            (written_one u t (answer_packet q) after.wire)
          ∙ sends,
      ap (λ (b : Bytes). ser_cmd_rcv peer b u)
            (written_one w v (request_packet q) e.request_sent
              ∙ sym (append-nil (request_packet q)))
          ∙ serves,
    )
