-- ===== src/Uart/Packet/Corruption.antt =====
-- The check of ser_cmd.c finds every error in a single byte, but for one in the length.
use clpsz_demos.Base.{
  ℕ, zero, suc, ◌<◌, ◌≤◌, ◌≡◌, ◌≢◌, refl, sym, ap, ◌∙◌, bit_xor, some, [], ◌∷◌, arith, ◌==◌, ≢→==,
  ◌&&◌, if◌then◌else◌, length, length-set, set, ltb, le→ltb, Bytes, get_elem?,
}
use clpsz_demos.Base.Bits.{bit_xor_assoc, bit_xor_comm, zero-bit_xor}
use clpsz_demos.Uart.Packet.{err_ok, err_sum, err_fmt, mac_parse}
use clpsz_demos.Uart.Packet.Checksum.{xor_all, xor_all-start, mac_parse_lem}

-- Replacing one byte changes the exclusive or by both bytes.
xor_all-set :
    (s : ℕ) (xs : Bytes) (k : ℕ) {x : ℕ} (y : ℕ)
    → get_elem? xs k ≡ some x
    → bit_xor (xor_all s (set xs k y)) x ≡ bit_xor (xor_all s xs) y
unfolding xor_all
xor_all-set s [] k y e = cc
xor_all-set s (z ∷ xs) zero {x} y e =
    let same : z ≡ x = cc in
    rw (
      xor_all-start s y xs,
      xor_all-start s z xs,
      same,
      bit_xor_assoc,
      bit_xor_comm y x,
      ← bit_xor_assoc,
    )
xor_all-set s (z ∷ xs) (suc k) y e = xor_all-set (bit_xor s z) xs k y e

get_elem?-set_ne : (xs : Bytes) (k j y : ℕ) → k ≢ j → get_elem? (set xs k y) j ≡ get_elem? xs j
get_elem?-set_ne [] k j y h = refl
get_elem?-set_ne (x ∷ xs) zero zero y h = absurd (h refl)
get_elem?-set_ne (x ∷ xs) zero (suc j) y h = refl
get_elem?-set_ne (x ∷ xs) (suc k) zero y h = refl
get_elem?-set_ne (x ∷ xs) (suc k) (suc j) y h = get_elem?-set_ne xs k j y (λ e. h (ap suc e))

get_elem?-set_self : (xs : Bytes) (k y : ℕ) → k < length xs → get_elem? (set xs k y) k ≡ some y
get_elem?-set_self [] k y h = absurd (omega arith)
get_elem?-set_self (x ∷ xs) zero y h = refl
get_elem?-set_self (x ∷ xs) (suc k) y h = get_elem?-set_self xs k y (omega arith)

lt_of_get : (xs : Bytes) (k : ℕ) {x : ℕ} → get_elem? xs k ≡ some x → k < length xs
lt_of_get [] k e = cc
lt_of_get (x ∷ xs) zero e = omega arith
lt_of_get (x ∷ xs) (suc k) e = omega (arith, lt_of_get xs k e)

get_of_lt : (xs : Bytes) (k : ℕ) → k < length xs → (x : ℕ) × (get_elem? xs k ≡ some x)
get_of_lt [] k h = absurd (omega arith)
get_of_lt (x ∷ xs) zero h = (x, refl)
get_of_lt (x ∷ xs) (suc k) h = get_of_lt xs k (omega arith)

-- What a packet that passes the check has: its head, and an exclusive or of 0.
record Passes (pkt : Bytes) : Type 0 where
  check_sum : ℕ
  head0 : get_elem? pkt 0 ≡ some 0x40
  head1 : get_elem? pkt 1 ≡ some 0x3e
  has_sum : get_elem? pkt 3 ≡ some check_sum
  zero_sum : xor_all 0 pkt ≡ 0

module _ (pkt : Bytes) (sized : get_elem? pkt 2 ≡ some (length pkt)) (header : 6 ≤ length pkt) where
  to_Passes : mac_parse pkt ≡ some err_ok → Passes pkt
  to_Passes ok =
      let (h0, e0) = get_of_lt pkt 0 (omega arith) in
      let (h1, e1) = get_of_lt pkt 1 (omega arith) in
      let (c, e3) = get_of_lt pkt 3 (omega arith) in
      let shape = sym (mac_parse_lem pkt sized e0 e1 e3) ∙ ok in
      record {
        check_sum = c;
        head0 = ground (arith, shape);
        head1 = ground (arith, shape);
        has_sum = e3;
        zero_sum = ground (arith, shape);
      }

  sized-set : (k y : ℕ) → k ≢ 2 → get_elem? (set pkt k y) 2 ≡ some (length (set pkt k y))
  sized-set k y h = get_elem?-set_ne pkt k 2 y h ∙ sized ∙ ap some (sym (length-set pkt k y))

  xor_all-set_ne_zero :
      (k : ℕ) {x y : ℕ}
      → xor_all 0 pkt ≡ 0
      → get_elem? pkt k ≡ some x
      → y ≢ x
      → xor_all 0 (set pkt k y) ≢ 0
  xor_all-set_ne_zero k {x} {y} z e ne bad =
      let swapped = xor_all-set 0 pkt k y e in
      ne (
        sym (
          sym (zero-bit_xor x)
          ∙ ap (λ (t : ℕ). bit_xor t x) (sym bad)
          ∙ swapped
          ∙ ap (λ (t : ℕ). bit_xor t y) z
          ∙ zero-bit_xor y))

  -- The check of the changed packet, from its two head bytes.
  changed :
      (k y : ℕ) {h0 h1 : ℕ}
      → k ≢ 2
      → get_elem? (set pkt k y) 0 ≡ some h0
      → get_elem? (set pkt k y) 1 ≡ some h1
      → mac_parse (set pkt k y)
        ≡ some (
            if h0 == 0x40 && h1 == 0x3e
            then (if xor_all 0 (set pkt k y) == 0 then err_ok else err_sum)
            else err_fmt)
  changed k y not_len e0 e1 =
      let (c, e3) = get_of_lt (set pkt k y) 3 (omega (arith, length-set pkt k y)) in
      mac_parse_lem (set pkt k y) (sized-set k y not_len) e0 e1 e3

  -- A packet that passes the check and then has one byte changed, other than len, fails it: with
  -- err_fmt for a byte of the head, and with err_sum for any other.
  pub mac_parse-set :
      (k y : ℕ) {x : ℕ}
      → mac_parse pkt ≡ some err_ok
      → get_elem? pkt k ≡ some x
      → y ≢ x
      → k ≢ 2
      → mac_parse (set pkt k y) ≡ some (if ltb k 2 then err_fmt else err_sum)
  mac_parse-set zero y {x} ok e ne not_len =
      let was = to_Passes ok in
      let other : y ≢ 0x40 = λ q. ne (ground (arith, was.head0)) in
      changed 0 y not_len (get_elem?-set_self pkt 0 y (omega arith))
        (get_elem?-set_ne pkt 0 1 y (λ q. cc) ∙ was.head1)
      ∙ rw (≢→== y 0x40 other)
  mac_parse-set (suc zero) y {x} ok e ne not_len =
      let was = to_Passes ok in
      let other : y ≢ 0x3e = λ q. ne (ground (arith, was.head1)) in
      changed 1 y not_len (get_elem?-set_ne pkt 1 0 y (λ q. cc) ∙ was.head0)
        (get_elem?-set_self pkt 1 y (omega arith))
      ∙ rw (≢→== y 0x3e other)
  mac_parse-set (suc (suc k)) y {x} ok e ne not_len =
      let was = to_Passes ok in
      changed (suc (suc k)) y not_len (get_elem?-set_ne pkt (suc (suc k)) 0 y (λ q. cc) ∙ was.head0)
        (get_elem?-set_ne pkt (suc (suc k)) 1 y (λ q. absurd (omega arith)) ∙ was.head1)
      ∙ rw (
        ≢→== (xor_all 0 (set pkt (suc (suc k)) y)) 0
            (xor_all-set_ne_zero (suc (suc k)) was.zero_sum e ne),
        le→ltb (suc (suc k)) 2 (omega arith),
      )
