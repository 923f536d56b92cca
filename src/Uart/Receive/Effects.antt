-- ===== src/Uart/Receive/Effects.antt =====
-- What an event of ser_cmd_rcv does to the state.
use clpsz_demos.Base.{
  ℕ, ◌≤◌, ◌<◌, ◌≡◌, refl, sym, ap, ◌∙◌, Option, none, some, List, [], ◌∷◌, ◌++◌, append_assoc,
  append-nil, map, Bytes,
}
use clpsz_demos.Uart.Decode.{Event, dropped, command, reply, crash, answers_to, replies_onto}
use clpsz_demos.Uart.Command.Handlers.{answer_of}
use clpsz_demos.Uart.Command.Reply.{handler_of}
use clpsz_demos.Uart.Receive.Head.{with_rcv}
use clpsz_demos.Uart.Packet.RoundTrip.{packet}
use clpsz_demos.Uart.State.{Heap, Host, Serial, Receiver}
use clpsz_demos.Uart.Receive.Assembly.{IsIdle}
use clpsz_demos.Uart.Receive.Complete.{Served}
use clpsz_demos.Uart.Receive.Sessions.{Plenty, answered_of}

abbrev pub contents : Heap → List Bytes
contents = map (λ b. b.1)

-- The flag for the sending thread after some events.
unfoldable pub replied_after : List Event → ℕ → ℕ
replied_after [] r = r
replied_after (reply block ∷ es) r = replied_after es 1
replied_after (_ ∷ es) r = replied_after es r

replied_after-append :
    (xs ys : List Event) (r : ℕ)
    → replied_after (xs ++ ys) r ≡ replied_after ys (replied_after xs r)
unfolding replied_after
replied_after-append [] ys r = refl
replied_after-append (dropped ∷ xs) ys r = replied_after-append xs ys r
replied_after-append (command c sn p ∷ xs) ys r = replied_after-append xs ys r
replied_after-append (reply b ∷ xs) ys r = replied_after-append xs ys 1
replied_after-append (crash ∷ xs) ys r = replied_after-append xs ys r

-- The state after some events: the answers are on the wire, of the heap only the blocks of the
-- replies are new, and the flag for the sending thread is set if there was one.
pub record Heard (w : Serial) (es : List Event) (v : Serial) : Type 0 where
  pub wire : v.wire ≡ w.wire ++ answers_to es
  pub blocks : contents v.heap ≡ replies_onto es (contents w.heap)
  pub send_sn : v.send_sn ≡ w.send_sn
  pub timeout : v.timeout ≡ w.timeout
  pub replied : v.replied ≡ replied_after es w.replied

answers_to-append : (xs ys : List Event) → answers_to (xs ++ ys) ≡ answers_to xs ++ answers_to ys
unfolding answers_to
answers_to-append [] ys = refl
answers_to-append (dropped ∷ xs) ys = answers_to-append xs ys
answers_to-append (command c sn p ∷ xs) ys = rw (answers_to-append xs ys)
answers_to-append (reply b ∷ xs) ys = answers_to-append xs ys
answers_to-append (crash ∷ xs) ys = answers_to-append xs ys

replies_onto-append :
    (xs ys : List Event) (older : List Bytes)
    → replies_onto (xs ++ ys) older ≡ replies_onto ys (replies_onto xs older)
unfolding replies_onto
replies_onto-append [] ys older = refl
replies_onto-append (dropped ∷ xs) ys older = replies_onto-append xs ys older
replies_onto-append (command c sn p ∷ xs) ys older = replies_onto-append xs ys older
replies_onto-append (reply b ∷ xs) ys older = replies_onto-append xs ys (b ∷ older)
replies_onto-append (crash ∷ xs) ys older = replies_onto-append xs ys older

pub Heard-append :
    {u v w : Serial} {xs ys : List Event} → Heard u xs v → Heard v ys w → Heard u (xs ++ ys) w
Heard-append {u} {xs} {ys} f g = record {
  wire =
      g.wire
      ∙ ap (λ t. t ++ answers_to ys) f.wire
      ∙ append_assoc u.wire (answers_to xs) (answers_to ys)
      ∙ ap (λ t. u.wire ++ t) (sym (answers_to-append xs ys));
  blocks =
      g.blocks ∙ ap (replies_onto ys) f.blocks ∙ sym (replies_onto-append xs ys (contents u.heap));
  send_sn = g.send_sn ∙ f.send_sn;
  timeout = g.timeout ∙ f.timeout;
  replied =
      g.replied ∙ ap (replied_after ys) f.replied ∙ sym (replied_after-append xs ys u.replied);
}

pub Heard-nothing : (w : Serial) → Heard w [] w
unfolding answers_to replies_onto replied_after
Heard-nothing w = record {
  wire = sym (append-nil w.wire);
  blocks = refl;
  send_sn = refl;
  timeout = refl;
  replied = refl;
}

-- What is to hold of the states before and after an event, and that it holds where a packet is
-- dropped, where a reply is handed on, and where a command is served.
pub record Effects (host : Host) : Type 1 where
  pub Effect : Event → Serial → Serial → Type 0
  pub on_dropped : (w : Serial) (r : Receiver) → Effect dropped w (with_rcv r w)
  pub on_reply :
      (w : Serial) (p c sn : ℕ) (xs : Bytes) (r : Receiver)
      → 128 ≤ c
      → c < 256
      → Effect
          (reply (packet c sn xs))
          w
          (record w { heap = (p, packet c sn xs) ∷ w.heap; rcv = r; replied = 1; replied_pkt = p })
  pub on_command :
      (w : Serial) (c sn : ℕ) (xs : Bytes) (r : Receiver) {result : Option (Unit {0} × Serial)}
      → (s : Served host w r sn (answer_of (handler_of c) xs) result)
      → Effect (command c sn xs) w s.after

-- The outcome of the last byte: undefined at a crash, else the event has happened.
abbrev pub Happens :
    (host : Host) → Effects host → Event → Serial → Option (Unit {0} × Serial) → Type 0
Happens host effects crash w r = r ≡ none
Happens host effects e w r = (v : Serial) × (r ≡ some (tt, v)) × effects.Effect e w v × IsIdle v.rcv

-- While malloc does not fail, the events are heard.
unfoldable pub heard_effects : (host : Host) → Plenty host → Effects host
unfolding answers_to replies_onto replied_after
heard_effects host plenty = record {
  Effect = λ e w v. Heard w (e ∷ []) v;
  on_dropped = λ w r. record {
    wire = sym (append-nil w.wire);
    blocks = refl;
    send_sn = refl;
    timeout = refl;
    replied = refl;
  };
  on_reply = λ w p c sn xs r high byte. record {
    wire = sym (append-nil w.wire);
    blocks = refl;
    send_sn = refl;
    timeout = refl;
    replied = refl;
  };
  on_command = λ w c sn xs r s. record {
    wire = answered_of plenty s.outcome;
    blocks = ap contents s.kept.heap;
    send_sn = s.kept.send_sn;
    timeout = s.kept.timeout;
    replied = s.kept.replied;
  };
}
