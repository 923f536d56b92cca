-- ===== src/Uart/Receive/Moves.antt =====
-- One byte for ser_cmd_rcv from each place of Uart/Decode.antt.
use clpsz_demos.Base.{
  All-append, IsByte, ℕ, zero, suc, ◌-◌, ◌≤◌, ◌<◌, ◌≡◌, refl, sym, ap, ◌∙◌, [], ◌∷◌, ◌++◌, arith,
  ==→≡, ==→≢, ltb→lt, ltb→le, ◌==◌, ltb, Bool-cases, inl, inr, ◌⊎◌, length, length-append,
  length-drop, drop, Bytes, IsByte, if◌then◌else◌,
}
use clpsz_demos.Uart.Decode.{Scan, hunting, seen_at, seen_head, collecting, whole}
use clpsz_demos.Uart.State.{null, Host, Serial, and_then}
use clpsz_demos.Uart.State.Laws.{Got, malloc-cases}
use clpsz_demos.Uart.Receive.{ser_cmd_rcv, end_packet}
use clpsz_demos.Uart.Receive.Assembly.{collect_byte, last_byte}
use clpsz_demos.Uart.Receive.Complete.{complete}
use clpsz_demos.Uart.Receive.Head.{
  idle, with_rcv, take_at, take_head, skip, false_start, short_length, begin_packet, no_block,
}
use clpsz_demos.Uart.Receive.Sessions.{Plenty, get_memory}
use clpsz_demos.Uart.Receive.Whole.{one_left}
use clpsz_demos.Uart.Receive.Places.{Statics, state_of, Filling, Fits}

uncons : (more : Bytes) → 0 < length more → (m : ℕ) × (tail : Bytes) × (more ≡ m ∷ tail)
uncons [] h = absurd (omega arith)
uncons (m ∷ tail) h = (m, tail, refl)

-- The state in which malloc is called for a packet of `x` bytes.
abbrev asking : Statics → Serial → (x : ℕ) → Serial
asking z w x =
    with_rcv (record { head = 0x40 ∷ 0x3e ∷ x ∷ z.d ∷ []; buf = z.buf; pkt_len = x; i = 2 }) w

module _ (host : Host) (rest : Bytes) where
  -- One byte that completes no packet: the program goes to the next place.
  pub record Moves (s : Scan) (z : Statics) (w : Serial) (x : ℕ) (next : Scan) : Type 0 where
    pub statics : Statics
    pub fits : Fits next statics w
    pub runs :
        ser_cmd_rcv host (x ∷ rest) (state_of s z w)
        ≡ ser_cmd_rcv host rest (state_of next statics w)

  pub hunting-Moves :
      (z : Statics) (w : Serial) (x : ℕ)
      → Moves hunting z w x (if x == 0x40 then seen_at else hunting)
  hunting-Moves z w x = elim (Bool-cases (x == 0x40)) [
    | inl e ↦
        let at : x ≡ 0x40 = ==→≡ x 0x40 e in
        rw e (record {
          statics = z;
          fits = tt;
          runs =
              ap (λ (t : ℕ). ser_cmd_rcv host (t ∷ rest) (state_of hunting z w)) at
              ∙ take_at host w z.a z.b z.c z.d z.buf z.len rest;
        })
    | inr e ↦ rw e (record {
      statics = record z { a = x };
      fits = tt;
      runs = skip host w z.a z.b z.c z.d z.buf z.len x rest (==→≢ x 0x40 e);
    })
  ]

  pub seen_at-Moves :
      (z : Statics) (w : Serial) (x : ℕ)
      → Moves seen_at z w x (if x == 0x3e then seen_head else hunting)
  seen_at-Moves z w x =
      let came = take_at host w 0 z.b z.c z.d z.buf z.len (x ∷ rest) in
      elim (Bool-cases (x == 0x3e)) [
        | inl e ↦
            let head : x ≡ 0x3e = ==→≡ x 0x3e e in
            rw e (record {
              statics = z;
              fits = tt;
              runs =
                  sym came
                  ∙ ap
                      (λ (t : ℕ).
                        ser_cmd_rcv host (0x40 ∷ t ∷ rest)
                          (with_rcv (idle 0 z.b z.c z.d z.buf z.len) w))
                      head
                  ∙ take_head host w 0 z.b z.c z.d z.buf z.len rest;
            })
        | inr e ↦ rw e (record {
          statics = record z { a = 0x40; b = x };
          fits = tt;
          runs = sym came ∙ false_start host w 0 z.b z.c z.d z.buf z.len x rest (==→≢ x 0x3e e);
        })
      ]

  -- A length for which there is memory.
  start-Moves :
      (z : Statics) (w : Serial) (x : ℕ)
      → x < 256
      → 6 ≤ x
      → Got host x (asking z w x)
      → Moves seen_head z w x (collecting x (x - 4) [])
  start-Moves z w x byte long got = record {
    statics = record z { buf = got.at; more = drop 3 got.block };
    fits = record {
      fresh = got.fresh;
      ne_null = got.ne_null;
      room = omega (arith, length-drop 3 got.block, got.size);
      total = omega arith;
      header = long;
      small = byte;
      are_bytes = tt;
    };
    runs =
        sym (take_head host w 0 0 z.c z.d z.buf z.len (x ∷ rest))
        ∙ begin_packet host w 0 0 z.c z.d z.buf z.len x rest long got;
  }

  short-Moves : (z : Statics) (w : Serial) (x : ℕ) → x < 6 → Moves seen_head z w x hunting
  short-Moves z w x short = record {
    statics = record z { a = 0x40; b = 0x3e; c = x; len = x };
    fits = tt;
    runs =
        sym (take_head host w 0 0 z.c z.d z.buf z.len (x ∷ rest))
        ∙ short_length host w 0 0 z.c z.d z.buf z.len x rest short;
  }

  pub seen_head-Moves :
      (z : Statics) (w : Serial) (x : ℕ)
      → Plenty host
      → x < 256
      → Moves seen_head z w x (if ltb x 6 then hunting else collecting x (x - 4) [])
  seen_head-Moves z w x plenty byte = elim (Bool-cases (ltb x 6)) [
    | inl e ↦ rw e (short-Moves z w x (ltb→lt x 6 e))
    | inr e ↦ rw e (start-Moves z w x byte (ltb→le x 6 e) (get_memory host plenty x (asking z w x)))
  ]

  -- Without memory for the block, the packet is given up.
  pub seen_head-cases :
      (z : Statics) (w : Serial) (x : ℕ)
      → x < 256
      → Moves seen_head z w x hunting ⊎ Moves seen_head z w x (collecting x (x - 4) [])
  seen_head-cases z w x byte = elim (Bool-cases (ltb x 6)) [
    | inl e ↦ inl (short-Moves z w x (ltb→lt x 6 e))
    | inr e ↦
        let long = ltb→le x 6 e in
        elim (malloc-cases host x (asking z w x)) [
          | inl refused ↦ inl (record {
            statics = record z { a = 0x40; b = 0x3e; c = x; buf = null; len = x };
            fits = tt;
            runs =
                sym (take_head host w 0 0 z.c z.d z.buf z.len (x ∷ rest))
                ∙ no_block host w 0 0 z.c z.d z.buf z.len x rest long refused;
          })
          | inr got ↦ inr (start-Moves z w x byte long got)
        ]
  ]

  module _ (n : ℕ) (body : Bytes) (z : Statics) (w : Serial) (x : ℕ) where
    pub collecting-Moves :
        (left : ℕ)
        → Filling n (suc left) body z w
        → IsByte x
        → Moves (collecting n (suc left) body) z w x (collecting n left (body ++ x ∷ []))
    unfolding ser_cmd_rcv
    collecting-Moves left f byte =
        let (m, tail, is) = uncons z.more (omega (arith, f.room)) in
        let grown = length-append body (x ∷ []) in
        record {
          statics = record z { more = tail };
          fits = record {
            fresh = f.fresh;
            ne_null = f.ne_null;
            room = omega (arith, f.room, ap length is);
            total = omega (arith, f.total, grown);
            header = f.header;
            small = f.small;
            are_bytes = All-append IsByte body (x ∷ []) f.are_bytes (byte, tt);
          };
          runs = rw is (
              rw (
                collect_byte host w z.buf n z.d f.fresh f.small (whole n body) x m tail
                  (omega arith) (omega (arith, f.total))));
        }

    pub last-Moves :
        Filling n zero body z w
        → ser_cmd_rcv host (x ∷ rest) (state_of (collecting n zero body) z w)
          ≡ and_then
              (end_packet host
                (complete w z.buf n z.d (length (whole n body)) (whole n (body ++ x ∷ []))))
              (λ (u, v). ser_cmd_rcv host rest v)
    unfolding ser_cmd_rcv
    last-Moves f =
        let (m, left) = one_left z.more 0 f.room in
        rw (
          left,
          last_byte host w z.buf n z.d f.fresh f.small (whole n body) x m (omega arith)
              (omega (arith, f.total)),
        )
