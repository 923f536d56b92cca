-- ===== src/Uart/Receive/Whole.antt =====
-- A whole packet from the line, from the first byte of its head to the check.
use clpsz_demos.Base.{
  ℕ, zero, suc, ◌+◌, ◌≤◌, ◌<◌, ◌≡◌, refl, ap, ◌∙◌, [], ◌∷◌, ◌++◌, append_assoc, arith, length,
  length-append, length-drop, drop, Bytes,
}
use clpsz_demos.Uart.State.{Host, Serial, and_then}
use clpsz_demos.Uart.State.Laws.{Got}
use clpsz_demos.Uart.Receive.{ser_cmd_rcv, end_packet}
use clpsz_demos.Uart.Receive.Assembly.{collect, last_byte}
use clpsz_demos.Uart.Receive.Head.{idle, with_rcv, begin_packet}
use clpsz_demos.Uart.Receive.Complete.{complete}

-- A list that is not empty, as its last element and what stands before it.
record Snoc (t : Bytes) : Type 0 where
  front : Bytes
  last : ℕ
  form : t ≡ front ++ last ∷ []

Snoc-cons : (y : ℕ) {t : Bytes} → Snoc t → Snoc (y ∷ t)
Snoc-cons y s = record { front = y ∷ s.front; last = s.last; form = ap (λ u. y ∷ u) s.form }

to_Snoc : (t : Bytes) → 0 < length t → Snoc t
to_Snoc [] h = absurd (omega arith)
to_Snoc (y ∷ []) h = record { front = []; last = y; form = refl }
to_Snoc (y ∷ z ∷ t) h = Snoc-cons y (to_Snoc (z ∷ t) (omega arith))

pub one_left : (ys : Bytes) (k : ℕ) → length ys ≡ k + 1 → (m : ℕ) × (drop k ys ≡ m ∷ [])
one_left [] k h = absurd (omega arith)
one_left (y ∷ []) zero h = (y, refl)
one_left (y ∷ z ∷ ys) zero h = absurd (omega arith)
one_left (y ∷ ys) (suc k) h = one_left ys k (omega arith)

module _ (host : Host) (w : Serial) (a b c d buf len n : ℕ) (fits : 6 ≤ n) (small : n < 256) where
  abbrev pub begun : Serial
  begun = with_rcv (record { head = 0x40 ∷ 0x3e ∷ n ∷ d ∷ []; buf = buf; pkt_len = n; i = 2 }) w

  rcv_parts :
      (got : Got host n begun) (front : Bytes) (y : ℕ) (rest : Bytes)
      → n ≡ 4 + length front
      → ser_cmd_rcv host (0x40 ∷ 0x3e ∷ n ∷ (front ++ y ∷ rest)) (with_rcv (idle a b c d buf len) w)
        ≡ and_then
            (end_packet host
              (complete w got.at n d (3 + length front) (0x40 ∷ 0x3e ∷ n ∷ (front ++ y ∷ []))))
            (λ (u, v). ser_cmd_rcv host rest v)
  unfolding ser_cmd_rcv
  rcv_parts got front y rest size =
      let p = got.at in
      let start = 0x40 ∷ 0x3e ∷ n ∷ [] in
      let held = length-drop 3 got.block in
      let (m, left) = one_left (drop 3 got.block) (length front) (omega (arith, held, got.size)) in
      let count : suc (suc (suc (length front))) ≡ 3 + length front = omega arith in
      begin_packet host w a b c d buf len n (front ++ y ∷ rest) fits got
      ∙ collect host w p n d got.fresh small front start (drop 3 got.block) (y ∷ rest) (omega arith)
          (omega arith) (omega (arith, held, got.size))
      ∙ rw (
        left,
        last_byte host w p n d got.fresh small (start ++ front) y m (omega arith) (omega arith),
        count,
      )

  -- The receiver checks exactly the block whose length the third byte gives.
  pub rcv-whole :
      (got : Got host n begun) (t rest : Bytes)
      → n ≡ 3 + length t
      → ser_cmd_rcv host (0x40 ∷ 0x3e ∷ n ∷ (t ++ rest)) (with_rcv (idle a b c d buf len) w)
        ≡ and_then
            (end_packet host (complete w got.at n d (2 + length t) (0x40 ∷ 0x3e ∷ n ∷ t)))
            (λ (u, v). ser_cmd_rcv host rest v)
  rcv-whole got t rest size =
      let s = to_Snoc t (omega arith) in
      let front = s.front in
      let grown = length-append front (s.last ∷ []) in
      let count : 2 + length (front ++ s.last ∷ []) ≡ 3 + length front = omega (arith, grown) in
      rw s.form (
        rw append_assoc
          (rcv_parts got front s.last rest (omega (arith, ap length s.form, grown)) ∙ rw count))
