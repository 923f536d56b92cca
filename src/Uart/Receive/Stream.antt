-- ===== src/Uart/Receive/Stream.antt =====
-- ser_cmd_rcv on any bytes at all, against the description of Uart/Decode.antt.
use clpsz_demos.Base.{
  All-append, IsByte, zero, suc, ◌+◌, ◌≡◌, refl, sym, Option, none, some, List, [], ◌∷◌, ◌++◌,
  arith, Bool, true, false, length, length-append, Bytes, AreBytes,
}
use clpsz_demos.Uart.Decode.{
  Scan, hunting, seen_at, seen_head, collecting, Event, dropped, command, reply, crash, judge,
  whole, scan, decode, crashes,
}
use clpsz_demos.Uart.Packet.{ErrCode, err_ok}
use mathlib.Core.Path.{subst}
use clpsz_demos.Uart.State.{Host, Receiver, Serial, and_then}
use clpsz_demos.Uart.Receive.{ser_cmd_rcv}
use clpsz_demos.Uart.Receive.Places.{Statics, state_of, Fits, run_nothing, statics_of}
use clpsz_demos.Uart.Receive.Moves.{
  hunting-Moves, seen_at-Moves, seen_head-Moves, collecting-Moves, last-Moves,
}
use clpsz_demos.Uart.Receive.Assembly.{IsIdle}
use clpsz_demos.Uart.Receive.Effects.{Happens, Heard, Heard-append, Heard-nothing, heard_effects}
use clpsz_demos.Uart.Receive.Events.{end_packet-Happens}
use clpsz_demos.Uart.Receive.Head.{to_Idle, with_rcv}
use clpsz_demos.Uart.Receive.Sessions.{Plenty}

-- The run has reached a place of the description, and the events have happened on the way.
pub record Reaches (w : Serial) (es : List Event) (v : Serial) : Type 0 where
  pub place : Scan
  pub statics : Statics
  pub base : Serial
  pub form : v ≡ state_of place statics base
  pub fits : Fits place statics base
  pub heard : Heard w es base

-- What a run comes to: undefined when a crash is among the events, else the events happen.
abbrev pub Runs : Bool → List Event → Serial → Option (ErrCode × Serial) → Type 0
Runs true es w r = r ≡ none
Runs false es w r = (v : Serial) × (r ≡ some (err_ok, v)) × Reaches w es v

after_event :
    {w u v : Serial} {e : Event} {es : List Event}
    → Heard w (e ∷ []) u
    → Reaches u es v
    → Reaches w (e ∷ es) v
after_event heard r = record {
  place = r.place;
  statics = r.statics;
  base = r.base;
  form = r.form;
  fits = r.fits;
  heard = Heard-append heard r.heard;
}

Runs-after :
    {w u : Serial} {e : Event} (es : List Event) (c : Bool) (r : Option (ErrCode × Serial))
    → Heard w (e ∷ []) u
    → Runs c es u r
    → Runs c (e ∷ es) w r
Runs-after es true r heard undefined = undefined
Runs-after es false r heard (v, returns, reaches) = (v, returns, after_event heard reaches)

module _ (host : Host) (plenty : Plenty host) where
  -- The rest of a run, after the event of a packet.
  run_event :
      (e : Event) (es : List Event) (xs : Bytes) (w : Serial) (r : Option (Unit {0} × Serial))
      → Happens host (heard_effects host plenty) e w r
      → ((v : Serial) → IsIdle v.rcv → Runs (crashes es) es v (ser_cmd_rcv host xs v))
      → Runs (crashes (e ∷ es)) (e ∷ es) w (and_then r (λ (u, v). ser_cmd_rcv host xs v))
  unfolding crashes heard_effects
  run_event crash es xs w r h go_on = rw h
  run_event dropped es xs w r (v, runs, heard, ready) go_on =
      rw runs (Runs-after es (crashes es) _ heard (go_on v ready))
  run_event (command c sn p) es xs w r (v, runs, heard, ready) go_on =
      rw runs (Runs-after es (crashes es) _ heard (go_on v ready))
  run_event (reply b) es xs w r (v, runs, heard, ready) go_on =
      rw runs (Runs-after es (crashes es) _ heard (go_on v ready))

  between :
      (v : Serial) (ready : IsIdle v.rcv) (xs : Bytes)
      → Runs
          (crashes (decode hunting xs))
          (decode hunting xs)
          v
          (ser_cmd_rcv host xs (state_of hunting (statics_of v ready) v))
      → Runs (crashes (decode hunting xs)) (decode hunting xs) v (ser_cmd_rcv host xs v)
  unfolding statics_of
  between v ready xs runs =
      subst
        (λ (r : Receiver).
          Runs (crashes (decode hunting xs)) (decode hunting xs) v
            (ser_cmd_rcv host xs (with_rcv r v)))
        (sym (to_Idle v.rcv ready).form) runs

  -- A run from a place of the description.
  run-decode :
      (xs : Bytes) (s : Scan) (z : Statics) (w : Serial)
      → Fits s z w
      → AreBytes xs
      → Runs (crashes (decode s xs)) (decode s xs) w (ser_cmd_rcv host xs (state_of s z w))
  unfolding decode scan crashes
  run-decode [] s z w fits bytes = (
    state_of s z w,
    run_nothing host (state_of s z w),
    record { place = s; statics = z; base = w; form = refl; fits = fits; heard = Heard-nothing w },
  )
  run-decode (x ∷ xs) hunting z w fits bytes =
      let m = hunting-Moves host xs z w x in rw m.runs (run-decode xs _ m.statics w m.fits bytes.1)
  run-decode (x ∷ xs) seen_at z w fits bytes =
      let m = seen_at-Moves host xs z w x in rw m.runs (run-decode xs _ m.statics w m.fits bytes.1)
  run-decode (x ∷ xs) seen_head z w fits bytes =
      let m = seen_head-Moves host xs z w x plenty bytes.0 in
      rw m.runs (run-decode xs _ m.statics w m.fits bytes.1)
  run-decode (x ∷ xs) (collecting n (suc left) body) z w fits bytes =
      let m = collecting-Moves host xs n body z w x left fits bytes.0 in
      rw m.runs (run-decode xs _ m.statics w m.fits bytes.1)
  run-decode (x ∷ xs) (collecting n zero body) z w fits bytes =
      let full = body ++ x ∷ [] in
      let size : n ≡ 3 + length full = omega (arith, fits.total, length-append body (x ∷ [])) in
      let all = All-append IsByte body (x ∷ []) fits.are_bytes (bytes.0, tt) in
      let ends =
        end_packet-Happens host (heard_effects host plenty) w z.buf z.d (length (whole n body))
          fits.ne_null fits.fresh n full size fits.header fits.small all in
      rw (last-Moves host xs n body z w x fits) (
        run_event (judge n full) (decode hunting xs) xs w _ ends
          (λ v ready. between v ready xs (run-decode xs hunting (statics_of v ready) v tt bytes.1)))

  -- A run between two packets.
  resume :
      (xs : Bytes)
      → AreBytes xs
      → (w : Serial) → IsIdle w.rcv
      → Runs (crashes (decode hunting xs)) (decode hunting xs) w (ser_cmd_rcv host xs w)
  resume xs bytes w ready =
      between w ready xs (run-decode xs hunting (statics_of w ready) w tt bytes)

-- While malloc does not fail, ser_cmd_rcv makes of any bytes what their description says: the
-- commands among them are answered in order, the blocks of the replies are left on the heap for
-- the sending thread, whose flag is then set, and of other blocks at most the one of an
-- unfinished packet, damaged packets have no effect, and the behaviour is undefined exactly when a good packet with command
-- 0 is among them.
pub ser_cmd_rcv-decode :
    (host : Host) (xs : Bytes) (w : Serial)
    → Plenty host
    → AreBytes xs
    → IsIdle w.rcv
    → Runs (crashes (decode hunting xs)) (decode hunting xs) w (ser_cmd_rcv host xs w)
ser_cmd_rcv-decode host xs w plenty bytes ready = resume host plenty xs bytes w ready
