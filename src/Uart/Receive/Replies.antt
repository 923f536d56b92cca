-- ===== src/Uart/Receive/Replies.antt =====
-- What the events of ser_cmd_rcv leave on the wire and on the heap when malloc may fail.
use clpsz_demos.Base.{
  ℕ, ◌≤◌, ◌<◌, ◌≡◌, refl, sym, ap, ◌∙◌, some, List, [], ◌∷◌, ◌++◌, append_assoc, append-nil, arith,
  Bytes, All, All-append, true,
}
use clpsz_demos.Uart.Command.Deal.{
  Outcome, answered, refused, silent_answer, silent_error, ok_reply, nomem_reply,
}
use clpsz_demos.Uart.Packet.{err_ok, mac_parse, is_reply}
use clpsz_demos.Uart.Packet.RoundTrip.{packet, mac_parse-packet}
use clpsz_demos.Uart.State.{Heap, Host, Serial}
use clpsz_demos.Uart.Receive.Complete.{is_reply-high}
use clpsz_demos.Uart.Receive.Effects.{contents, Effects}

-- A block that the check accepts and that has the reply bit.
abbrev pub IsReply : Bytes → Type 0
IsReply b = (mac_parse b ≡ some err_ok) × (is_reply b ≡ some true)

pub packet-IsReply : (c sn : ℕ) (xs : Bytes) → 128 ≤ c → c < 256 → IsReply (packet c sn xs)
packet-IsReply c sn xs high byte = (mac_parse-packet c sn xs, is_reply-high c sn xs high byte)

-- What is new on the wire and on the heap are good replies, and nothing that was there is gone.
pub record Keeps (w v : Serial) : Type 0 where
  pub out : List Bytes
  pub wire : v.wire ≡ w.wire ++ out
  pub out_replies : All IsReply out
  pub new_blocks : List Bytes
  pub blocks : contents v.heap ≡ new_blocks ++ contents w.heap
  pub block_replies : All IsReply new_blocks
  pub send_sn : v.send_sn ≡ w.send_sn
  pub timeout : v.timeout ≡ w.timeout

pub Keeps-nothing : (w : Serial) → Keeps w w
Keeps-nothing w = record {
  out = [];
  wire = sym (append-nil w.wire);
  out_replies = tt;
  new_blocks = [];
  blocks = refl;
  block_replies = tt;
  send_sn = refl;
  timeout = refl;
}

pub Keeps-trans : {u v w : Serial} → Keeps u v → Keeps v w → Keeps u w
Keeps-trans {u} f g = record {
  out = f.out ++ g.out;
  wire = g.wire ∙ ap (λ t. t ++ g.out) f.wire ∙ append_assoc u.wire f.out g.out;
  out_replies = All-append IsReply f.out g.out f.out_replies g.out_replies;
  new_blocks = g.new_blocks ++ f.new_blocks;
  blocks =
      g.blocks
      ∙ ap (λ t. g.new_blocks ++ t) f.blocks
      ∙ sym (append_assoc g.new_blocks f.new_blocks (contents u.heap));
  block_replies = All-append IsReply g.new_blocks f.new_blocks g.block_replies f.block_replies;
  send_sn = g.send_sn ∙ f.send_sn;
  timeout = g.timeout ∙ f.timeout;
}

-- Whichever answer has gone out, it is a good reply.
pub Outcome-replies :
    (host : Host) {h : Heap} {room : ℕ} {w v : Serial} (sn : ℕ) (answer : Bytes)
    → Outcome host h room w v (packet ok_reply sn answer) (packet nomem_reply sn [])
    → (out : List Bytes) × (v.wire ≡ w.wire ++ out) × All IsReply out
Outcome-replies host sn answer (answered e) = (
  packet ok_reply sn answer ∷ [],
  e,
  (packet-IsReply 0x80 sn answer (omega arith) (omega arith), tt),
)
Outcome-replies host sn answer (refused no_room e) =
    (packet nomem_reply sn [] ∷ [], e, (packet-IsReply 0x85 sn [] (omega arith) (omega arith), tt))
Outcome-replies host {w} sn answer (silent_answer p block fresh size no_room e) =
    ([], e ∙ sym (append-nil w.wire), tt)
Outcome-replies host {w} sn answer (silent_error no_block no_room e) =
    ([], e ∙ sym (append-nil w.wire), tt)

unfoldable pub keeps_effects : (host : Host) → Effects host
keeps_effects host = record {
  Effect = λ e w v. Keeps w v;
  on_dropped = λ w r. record {
    out = [];
    wire = sym (append-nil w.wire);
    out_replies = tt;
    new_blocks = [];
    blocks = refl;
    block_replies = tt;
    send_sn = refl;
    timeout = refl;
  };
  on_reply = λ w p c sn xs r high byte. record {
    out = [];
    wire = sym (append-nil w.wire);
    out_replies = tt;
    new_blocks = packet c sn xs ∷ [];
    blocks = refl;
    block_replies = (packet-IsReply c sn xs high byte, tt);
    send_sn = refl;
    timeout = refl;
  };
  on_command = λ w c sn xs r s.
      let (out, wire, replies) = Outcome-replies host sn _ s.outcome in
      record {
        out = out;
        wire = wire;
        out_replies = replies;
        new_blocks = [];
        blocks = ap contents s.kept.heap;
        block_replies = tt;
        send_sn = s.kept.send_sn;
        timeout = s.kept.timeout;
      };
}
