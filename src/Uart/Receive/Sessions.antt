-- ===== src/Uart/Receive/Sessions.antt =====
-- What the receiver does with whole packets: it answers commands in their order, hands replies
-- on, and drops what fails the check.
use clpsz_demos.Base.{
  All, ℕ, ◌+◌, ◌≤◌, ◌<◌, ◌≡◌, ◌≢◌, refl, sym, ap, ◌∙◌, inl, inr, none, some, List, [], ◌∷◌, ◌++◌,
  append_assoc, append-nil, arith, length, Bytes,
}
use clpsz_demos.Uart.Packet.{err_ok, hdr_len}
use clpsz_demos.Uart.Packet.Checksum.{xor_all}
use clpsz_demos.Uart.Packet.RoundTrip.{packet, summed}
use clpsz_demos.Uart.State.{Heap, Host, Receiver, Serial, and_then}
use clpsz_demos.Uart.State.Laws.{Got, malloc-cases}
use clpsz_demos.Uart.Command.Handlers.{answer_of}
use clpsz_demos.Uart.Command.Reply.{handler_of}
use clpsz_demos.Uart.Command.Deal.{
  Kept, Outcome, answered, refused, silent_answer, silent_error, ok_reply,
}
use clpsz_demos.Uart.Receive.{ser_cmd_rcv}
use clpsz_demos.Uart.Receive.Assembly.{IsIdle}
use clpsz_demos.Uart.Receive.Head.{idle, to_Idle, with_rcv, skip}
use clpsz_demos.Uart.Receive.Whole.{begun, rcv-whole}
use clpsz_demos.Uart.Receive.Complete.{end_packet-Served}

-- malloc never fails.
abbrev pub Plenty : Host → Type 0
Plenty host = (h : Heap) (n : ℕ) → host.malloc h n ≢ none

pub get_memory : (host : Host) → Plenty host → (n : ℕ) (w : Serial) → Got host n w
get_memory host plenty n w = elim (malloc-cases host n w) [
  | inl lack ↦ absurd (plenty w.heap n lack.no_memory)
  | inr got ↦ got
]

-- The packet behind its length byte.
abbrev pub body : (cmd sn : ℕ) → Bytes → Bytes
body cmd sn xs = xor_all 0 (summed cmd sn xs) ∷ sn ∷ cmd ∷ xs

-- One command of a peer.
pub record Request : Type 0 where
  pub cmd : ℕ
  pub sn : ℕ
  pub payload : Bytes

pub record IsRequest (q : Request) : Type 0 where
  pub not_zero : q.cmd ≢ 0
  pub no_reply_bit : q.cmd < 128
  pub fits : length q.payload ≤ 249

abbrev pub request_packet : Request → Bytes
request_packet q = packet q.cmd q.sn q.payload

-- The answer that the protocol promises: the handler's data under the request's sn.
abbrev pub answer_packet : Request → Bytes
answer_packet q = packet ok_reply q.sn (answer_of (handler_of q.cmd) q.payload)

-- The state after a request: `w` with the answer on the wire.
pub record After (w : Serial) (answers : List Bytes) (v : Serial) : Type 0 where
  pub wire : v.wire ≡ w.wire ++ answers
  pub heap : v.heap ≡ w.heap
  pub idle_again : IsIdle v.rcv
  pub send_sn : v.send_sn ≡ w.send_sn
  pub timeout : v.timeout ≡ w.timeout
  pub replied : v.replied ≡ w.replied
  pub replied_pkt : v.replied_pkt ≡ w.replied_pkt

pub answered_of :
    {host : Host} {h : Heap} {room : ℕ} {w w' : Serial} {a b : Bytes}
    → Plenty host
    → Outcome host h room w w' a b
    → w'.wire ≡ w.wire ++ a ∷ []
answered_of plenty (answered e) = e
answered_of {h} {room} plenty (refused no_room e) = absurd (plenty h room no_room)
answered_of {h} {a} plenty (silent_answer p block fresh size no_room e) =
    absurd (plenty ((p, block) ∷ h) (length a) no_room)
answered_of {h} {room} plenty (silent_error no_block no_room e) = absurd (plenty h room no_block)

After-of :
    {host : Host} {h : Heap} {room : ℕ} {w v : Serial} {r : Receiver} {a b : Bytes}
    → Plenty host
    → Kept (record w { rcv = r }) v
    → Outcome host h room w v a b
    → r.i ≡ 0
    → length r.head ≡ 4
    → After w (a ∷ []) v
After-of plenty kept outcome at_start head_size = record {
  wire = answered_of plenty outcome;
  heap = kept.heap;
  idle_again = record {
    at_start = ap (λ (r : Receiver). r.i) kept.rcv ∙ at_start;
    head_size = ap (λ (r : Receiver). length r.head) kept.rcv ∙ head_size;
  };
  send_sn = kept.send_sn;
  timeout = kept.timeout;
  replied = kept.replied;
  replied_pkt = kept.replied_pkt;
}

-- One state after another.
pub After-append :
    {u v w : Serial} {xs ys : List Bytes} → After u xs v → After v ys w → After u (xs ++ ys) w
After-append {u} {xs} {ys} f g = record {
  wire = g.wire ∙ ap (λ t. t ++ ys) f.wire ∙ append_assoc u.wire xs ys;
  heap = g.heap ∙ f.heap;
  idle_again = g.idle_again;
  send_sn = g.send_sn ∙ f.send_sn;
  timeout = g.timeout ∙ f.timeout;
  replied = g.replied ∙ f.replied;
  replied_pkt = g.replied_pkt ∙ f.replied_pkt;
}

-- Only the statics of the receiver have changed.
pub After-rcv : (w : Serial) (r : Receiver) → IsIdle r → After w [] (with_rcv r w)
After-rcv w r is = record {
  wire = sym (append-nil w.wire);
  heap = refl;
  idle_again = is;
  send_sn = refl;
  timeout = refl;
  replied = refl;
  replied_pkt = refl;
}

-- Bytes among which no head can begin.
abbrev pub IsNoise : Bytes → Type 0
IsNoise = All (λ x. x ≢ 0x40)

pub skip_noise :
    (host : Host) (xs rest : Bytes) (w : Serial)
    → IsNoise xs
    → IsIdle w.rcv
    → (v : Serial) × (ser_cmd_rcv host (xs ++ rest) w ≡ ser_cmd_rcv host rest v) × After w [] v
skip_noise host [] rest w quiet ready = (w, refl, After-rcv w w.rcv ready)
skip_noise host (x ∷ xs) rest w quiet ready =
    let i = to_Idle w.rcv ready in
    let r = idle x i.b i.c i.d w.rcv.buf w.rcv.pkt_len in
    let idle_r : IsIdle r = record { at_start = refl; head_size = refl } in
    let (v, runs, after) = skip_noise host xs rest (with_rcv r w) quiet.1 idle_r in
    (
      v,
      ap (λ t. ser_cmd_rcv host (x ∷ (xs ++ rest)) (with_rcv t w)) i.form
          ∙ skip host w i.a i.b i.c i.d w.rcv.buf w.rcv.pkt_len x (xs ++ rest) quiet.0
          ∙ runs,
      After-append (After-rcv w r idle_r) after,
    )

module _ (host : Host) (plenty : Plenty host) where
  pub serve_one :
      (q : Request) (rest : Bytes) (w : Serial)
      → IsRequest q
      → IsIdle w.rcv
      → (v : Serial) × (ser_cmd_rcv host (request_packet q ++ rest) w ≡ ser_cmd_rcv host rest v)
        × After w (answer_packet q ∷ []) v
  unfolding packet
  serve_one q rest w is ready =
      let i = to_Idle w.rcv ready in
      let n = hdr_len + length q.payload in
      let got = get_memory host plenty n (
        begun host w i.a i.b i.c i.d w.rcv.buf w.rcv.pkt_len n (omega (arith, is.fits))
          (omega (arith, is.fits))) in
      let served =
        end_packet-Served host w got.at n i.d (2 + length (body q.cmd q.sn q.payload)) got.ne_null
          got.fresh q.cmd q.sn q.payload is.not_zero is.no_reply_bit is.fits in
      (
        served.after,
        ap (λ r. ser_cmd_rcv host (request_packet q ++ rest) (with_rcv r w)) i.form
            ∙ rcv-whole host w i.a i.b i.c i.d w.rcv.buf w.rcv.pkt_len n (omega (arith, is.fits))
                (omega (arith, is.fits)) got (body q.cmd q.sn q.payload) rest (omega arith)
            ∙ ap (λ o. and_then o (λ (u, v). ser_cmd_rcv host rest v)) served.returns,
        After-of plenty served.kept served.outcome refl refl,
      )

-- What a peer sends: noise and then a request.
pub record Turn : Type 0 where
  pub noise : Bytes
  pub request : Request

pub record IsTurn (t : Turn) : Type 0 where
  pub quiet : IsNoise t.noise
  pub good : IsRequest t.request

abbrev pub stream : List Turn → Bytes
stream [] = []
stream (t ∷ ts) = t.noise ++ request_packet t.request ++ stream ts

abbrev pub answers : List Turn → List Bytes
answers [] = []
answers (t ∷ ts) = answer_packet t.request ∷ answers ts

-- While malloc does not fail, the receiver answers every request, in the order of the requests,
-- with the handler's data under the request's sn, whatever noise without '@' lies between; the
-- heap is then as it was, and the receiver is ready for the next head.
pub ser_cmd_rcv-answers :
    (host : Host) (ts : List Turn) (w : Serial)
    → Plenty host
    → All IsTurn ts
    → IsIdle w.rcv
    → (v : Serial) × (ser_cmd_rcv host (stream ts) w ≡ some (err_ok, v)) × After w (answers ts) v
unfolding ser_cmd_rcv
ser_cmd_rcv-answers host [] w plenty good ready = (w, refl, After-rcv w w.rcv ready)
ser_cmd_rcv-answers host (t ∷ ts) w plenty good ready =
    let (u, quiet, after_noise) =
      skip_noise host t.noise (request_packet t.request ++ stream ts) w good.0.quiet ready in
    let (v, served, after) =
      serve_one host plenty t.request (stream ts) u good.0.good after_noise.idle_again in
    let (last, rest, after_rest) = ser_cmd_rcv-answers host ts v plenty good.1 after.idle_again in
    (
      last,
      ap (λ (xs : Bytes). ser_cmd_rcv host xs w)
            (append_assoc t.noise (request_packet t.request) (stream ts))
          ∙ quiet
          ∙ served
          ∙ rest,
      After-append after_noise (After-append after after_rest),
    )
