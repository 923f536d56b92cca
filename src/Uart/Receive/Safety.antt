-- ===== src/Uart/Receive/Safety.antt =====
-- What ser_cmd_rcv keeps on any bytes when malloc may fail at any time.
use clpsz_demos.Base.{
  All-append, IsByte, ℕ, zero, suc, ◌+◌, ◌≡◌, refl, sym, ap, ◌∙◌, Option, none, some, [], ◌∷◌, ◌++◌,
  append_assoc, arith, length, length-append, Bytes, AreBytes, inl, inr, ◌⊎◌, ◌-◌, ◌==◌, Bool-cases,
  ==→≡, if◌then◌else◌,
}
use mathlib.Core.Path.{subst}
use clpsz_demos.Uart.Decode.{
  Scan, hunting, seen_at, seen_head, collecting, Event, dropped, command, reply, crash, judge,
  whole,
}
use clpsz_demos.Uart.Packet.{ErrCode, err_ok}
use clpsz_demos.Uart.State.{Host, Receiver, Serial, and_then}
use clpsz_demos.Uart.Receive.Head.{to_Idle, with_rcv}
use clpsz_demos.Uart.Receive.{ser_cmd_rcv}
use clpsz_demos.Uart.Receive.Assembly.{IsIdle}
use clpsz_demos.Uart.Receive.Effects.{Happens}
use clpsz_demos.Uart.Receive.Events.{end_packet-Happens}
use clpsz_demos.Uart.Receive.Places.{Statics, state_of, Fits, run_nothing, statics_of}
use clpsz_demos.Uart.Receive.Moves.{
  Moves, hunting-Moves, seen_at-Moves, seen_head-cases, collecting-Moves, last-Moves,
}
use clpsz_demos.Uart.Receive.Replies.{Keeps, Keeps-nothing, Keeps-trans, keeps_effects}

-- A good packet with command 0 stands in the bytes: its length byte counts all its bytes, the
-- exclusive or of which is 0.
pub record HasZero (ys : Bytes) : Type 0 where
  pub before : Bytes
  pub n : ℕ
  pub body : Bytes
  pub after : Bytes
  pub form : ys ≡ before ++ (whole n body ++ after)
  pub whole_packet : length (whole n body) ≡ n
  pub is_zero : judge n body ≡ crash

HasZero-later : (zs : Bytes) {ys : Bytes} → HasZero ys → HasZero (zs ++ ys)
HasZero-later zs z = record {
  before = zs ++ z.before;
  n = z.n;
  body = z.body;
  after = z.after;
  form = ap (λ t. zs ++ t) z.form ∙ sym (append_assoc zs z.before (whole z.n z.body ++ z.after));
  whole_packet = z.whole_packet;
  is_zero = z.is_zero;
}

-- The bytes of an unfinished packet.
abbrev pub pending : Scan → Bytes
pending hunting = []
pending seen_at = 0x40 ∷ []
pending seen_head = 0x40 ∷ 0x3e ∷ []
pending (collecting n left body) = whole n body

-- The state at a place: between packets, or with a block of its own that is filled up to `i`.
pub record Sound (w v : Serial) : Type 0 where
  pub place : Scan
  pub statics : Statics
  pub base : Serial
  pub form : v ≡ state_of place statics base
  pub fits : Fits place statics base
  pub keeps : Keeps w base

-- What a run on the bytes `ys` comes to.
abbrev pub Safe : (ys : Bytes) → Serial → Option (ErrCode × Serial) → Type 0
Safe ys w r = ((r ≡ none) × HasZero ys) ⊎ ((v : Serial) × (r ≡ some (err_ok, v)) × Sound w v)

Safe-same :
    {ys zs : Bytes} {w : Serial} {r : Option (ErrCode × Serial)}
    → ys ≡ zs
    → Safe ys w r
    → Safe zs w r
Safe-same {w} {r} same s = subst (λ t. Safe t w r) same s

Safe-later :
    {u w : Serial} (zs : Bytes) {ys : Bytes} {r : Option (ErrCode × Serial)}
    → Keeps u w
    → Safe ys w r
    → Safe (zs ++ ys) u r
Safe-later zs keeps (inl (faults, z)) = inl (faults, HasZero-later zs z)
Safe-later zs keeps (inr (v, returns, s)) = inr (
  v,
  returns,
  record {
    place = s.place;
    statics = s.statics;
    base = s.base;
    form = s.form;
    fits = s.fits;
    keeps = Keeps-trans keeps s.keeps;
  },
)

hunting_pending :
    (x : ℕ) (xs : Bytes)
    → (zs : Bytes) × (x ∷ xs ≡ zs ++ (pending (if x == 0x40 then seen_at else hunting) ++ xs))
hunting_pending x xs = elim (Bool-cases (x == 0x40)) [
  | inl e ↦ rw e ([], ap (λ y. y ∷ xs) (==→≡ x 0x40 e))
  | inr e ↦ rw e (x ∷ [], refl)
]

seen_at_pending :
    (x : ℕ) (xs : Bytes)
    → (zs : Bytes) × (0x40 ∷ x ∷ xs
        ≡ zs ++ (pending (if x == 0x3e then seen_head else hunting) ++ xs))
seen_at_pending x xs = elim (Bool-cases (x == 0x3e)) [
  | inl e ↦ rw e ([], ap (λ y. 0x40 ∷ y ∷ xs) (==→≡ x 0x3e e))
  | inr e ↦ rw e (0x40 ∷ x ∷ [], refl)
]

module _ (host : Host) where
  from_idle :
      (v : Serial) (ready : IsIdle v.rcv) (xs : Bytes)
      → Safe xs v (ser_cmd_rcv host xs (state_of hunting (statics_of v ready) v))
      → Safe xs v (ser_cmd_rcv host xs v)
  unfolding statics_of
  from_idle v ready xs safe =
      subst (λ (r : Receiver). Safe xs v (ser_cmd_rcv host xs (with_rcv r v)))
        (sym (to_Idle v.rcv ready).form) safe

  -- The rest of a run, after the end of a packet: `block` are the packet's bytes, of which `ys` are
  -- the last.
  settle :
      (e : Event) (n : ℕ) (full xs : Bytes) (w : Serial) (r : Option (Unit {0} × Serial))
      → judge n full ≡ e
      → length (whole n full) ≡ n
      → Happens host (keeps_effects host) e w r
      → ((v : Serial) → IsIdle v.rcv → Safe xs v (ser_cmd_rcv host xs v))
      → Safe (whole n full ++ xs) w (and_then r (λ (u, v). ser_cmd_rcv host xs v))
  unfolding keeps_effects
  settle crash n full xs w r is sized h go_on = rw h (
      inl (
        refl,
        record {
          before = [];
          n = n;
          body = full;
          after = xs;
          form = refl;
          whole_packet = sized;
          is_zero = is;
        },
      ))
  settle dropped n full xs w r is sized (v, runs, keeps, ready) go_on =
      rw runs (Safe-later (whole n full) keeps (go_on v ready))
  settle (command c sn p) n full xs w r is sized (v, runs, keeps, ready) go_on =
      rw runs (Safe-later (whole n full) keeps (go_on v ready))
  settle (reply b) n full xs w r is sized (v, runs, keeps, ready) go_on =
      rw runs (Safe-later (whole n full) keeps (go_on v ready))

  moved :
      {s next : Scan} {z : Statics} {w : Serial} {x : ℕ} {xs : Bytes} (zs : Bytes)
      → pending s ++ x ∷ xs ≡ zs ++ (pending next ++ xs)
      → (m : Moves host xs s z w x next)
      → Safe (pending next ++ xs) w (ser_cmd_rcv host xs (state_of next m.statics w))
      → Safe (pending s ++ x ∷ xs) w (ser_cmd_rcv host (x ∷ xs) (state_of s z w))
  moved {next} {w} {xs} zs same m safe =
      rw m.runs (Safe-same (sym same) (Safe-later zs (Keeps-nothing w) safe))

  run-Safe :
      (xs : Bytes) (s : Scan) (z : Statics) (w : Serial)
      → Fits s z w
      → AreBytes xs
      → Safe (pending s ++ xs) w (ser_cmd_rcv host xs (state_of s z w))
  run-Safe [] s z w fits bytes = inr (
    state_of s z w,
    run_nothing host (state_of s z w),
    record { place = s; statics = z; base = w; form = refl; fits = fits; keeps = Keeps-nothing w },
  )
  run-Safe (x ∷ xs) hunting z w fits bytes =
      let m = hunting-Moves host xs z w x in
      let (zs, same) = hunting_pending x xs in
      moved zs same m (run-Safe xs _ m.statics w m.fits bytes.1)
  run-Safe (x ∷ xs) seen_at z w fits bytes =
      let m = seen_at-Moves host xs z w x in
      let (zs, same) = seen_at_pending x xs in
      moved zs same m (run-Safe xs _ m.statics w m.fits bytes.1)
  run-Safe (x ∷ xs) seen_head z w fits bytes = elim (seen_head-cases host xs z w x bytes.0) [
    | inl m ↦ moved (0x40 ∷ 0x3e ∷ x ∷ []) refl m (run-Safe xs hunting m.statics w m.fits bytes.1)
    | inr m ↦ moved [] refl m (run-Safe xs (collecting x (x - 4) []) m.statics w m.fits bytes.1)
  ]
  run-Safe (x ∷ xs) (collecting n (suc left) body) z w fits bytes =
      let m = collecting-Moves host xs n body z w x left fits bytes.0 in
      moved [] (sym (append_assoc (whole n body) (x ∷ []) xs)) m
        (run-Safe xs (collecting n left (body ++ x ∷ [])) m.statics w m.fits bytes.1)
  run-Safe (x ∷ xs) (collecting n zero body) z w fits bytes =
      let full = body ++ x ∷ [] in
      let size : n ≡ 3 + length full = omega (arith, fits.total, length-append body (x ∷ [])) in
      let all = All-append IsByte body (x ∷ []) fits.are_bytes (bytes.0, tt) in
      let ends =
        end_packet-Happens host (keeps_effects host) w z.buf z.d (length (whole n body))
          fits.ne_null fits.fresh n full size fits.header fits.small all in
      rw (last-Moves host xs n body z w x fits) (
        Safe-same (append_assoc (whole n body) (x ∷ []) xs) (
          settle (judge n full) n full xs w _ refl (omega (arith, size)) ends (λ v ready.
            from_idle v ready xs (run-Safe xs hunting (statics_of v ready) v tt bytes.1))))

-- Whatever malloc refuses, and whatever bytes come in, ser_cmd_rcv reads and writes only blocks
-- that it holds: it returns, what it has put on the wire are good replies, no block that was
-- there before is gone or changed, the new blocks are good replies for the sending thread and at
-- most that of an unfinished packet, which is filled as far as its bytes have come; or the
-- behaviour is undefined, and then the bytes hold a good packet with command 0.
pub ser_cmd_rcv-Safe :
    (host : Host) (xs : Bytes) (w : Serial)
    → AreBytes xs
    → IsIdle w.rcv
    → Safe xs w (ser_cmd_rcv host xs w)
ser_cmd_rcv-Safe host xs w bytes ready =
    from_idle host w ready xs (run-Safe host xs hunting (statics_of w ready) w tt bytes)
