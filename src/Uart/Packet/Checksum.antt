-- ===== src/Uart/Packet/Checksum.antt =====
-- The checksum of ser_cmd.c: a packet that is built passes the check of the receiver.
use clpsz_demos.Base.{
  ℕ, zero, suc, ◌≡◌, refl, sym, ap, ◌∙◌, fun_ext, get_elem?, bit_xor, some, [], ◌∷◌, ◌++◌,
  append-nil, arith, ◌==◌, ≡→==, ≢→==, ==→≡, ==→≢, Bool-cases, inl, inr, ◌&&◌, if◌then◌else◌,
  length, Bytes,
}
use clpsz_demos.Base.Maybe.{◌>>=◌}
use clpsz_demos.Base.Bits.{bit_xor_comm, bit_xor_assoc, zero-bit_xor, bit_xor_cancel_right}
use clpsz_demos.Uart.Packet.{err_ok, err_sum, err_fmt, checksum_loop, calc_checksum, mac_parse}

-- The exclusive or of a list of bytes, from a start value.
unfoldable pub xor_all : ℕ → Bytes → ℕ
xor_all s [] = s
xor_all s (x ∷ xs) = xor_all (bit_xor s x) xs

pub xor_all-start : (s t : ℕ) (xs : Bytes) → xor_all (bit_xor s t) xs ≡ bit_xor (xor_all s xs) t
unfolding xor_all
xor_all-start s t [] = refl
xor_all-start s t (x ∷ xs) =
    ap (λ (u : ℕ). xor_all u xs)
      (bit_xor_assoc s t x ∙ ap (bit_xor s) (bit_xor_comm t x) ∙ sym (bit_xor_assoc s x t))
    ∙ xor_all-start (bit_xor s x) t xs

-- `sum == check_sum` in mac_parse holds exactly when the whole exclusive or is 0.
xor_eq-test : (x c : ℕ) → (bit_xor x c == c) ≡ (x == 0)
xor_eq-test x c = elim (Bool-cases (x == 0)) [
  | inl e ↦ rw (e, ==→≡ x 0 e, zero-bit_xor c) (≡→== c c refl)
  | inr e ↦ rw e (≢→== _ c λ q. ==→≢ x 0 e (bit_xor_cancel_right x 0 c (q ∙ sym (zero-bit_xor c))))
]

checksum_loop_shift :
    (x : ℕ) (b : Bytes) (i n s : ℕ) → checksum_loop (x ∷ b) (suc i) n s ≡ checksum_loop b i n s
unfolding checksum_loop
checksum_loop_shift x b i zero s = refl
checksum_loop_shift x b i (suc n) s =
    ap (λ f. get_elem? b i >>= f) (fun_ext (λ y. checksum_loop_shift x b (suc i) n (bit_xor s y)))

-- The sum over the front of a block.
checksum_loop-append :
    (b rest : Bytes) (s : ℕ) → checksum_loop (b ++ rest) 0 (length b) s ≡ some (xor_all s b)
unfolding checksum_loop xor_all
checksum_loop-append [] rest s = refl
checksum_loop-append (x ∷ b) rest s =
    checksum_loop_shift x (b ++ rest) 0 (length b) (bit_xor s x)
    ∙ checksum_loop-append b rest (bit_xor s x)

checksum_loop-xor_all : (b : Bytes) (s : ℕ) → checksum_loop b 0 (length b) s ≡ some (xor_all s b)
checksum_loop-xor_all b s =
    ap (λ t. checksum_loop t 0 (length b) s) (sym (append-nil b)) ∙ checksum_loop-append b [] s

module _ (pkt : Bytes) (sized : get_elem? pkt 2 ≡ some (length pkt)) where
  -- In a packet whose len is its size, the sum runs over the whole packet.
  pub calc_checksum-xor_all :
      {c : ℕ} → get_elem? pkt 3 ≡ some c → calc_checksum pkt ≡ some (bit_xor (xor_all 0 pkt) c)
  unfolding calc_checksum
  calc_checksum-xor_all e = rw (sized, checksum_loop-xor_all pkt 0, e)

  -- The three results of the check, by the two head bytes and the exclusive or of all bytes.
  pub mac_parse_lem :
      {h0 h1 c : ℕ}
      → get_elem? pkt 0 ≡ some h0
      → get_elem? pkt 1 ≡ some h1
      → get_elem? pkt 3 ≡ some c
      → mac_parse pkt
        ≡ some (
            if h0 == 0x40 && h1 == 0x3e
            then (if xor_all 0 pkt == 0 then err_ok else err_sum)
            else err_fmt)
  unfolding mac_parse
  mac_parse_lem {h0} {h1} {c} e0 e1 e3 =
      rw (e0, e1, calc_checksum-xor_all e3, e3, xor_eq-test (xor_all 0 pkt) c) (ground arith)

-- The checksum of a block of which len gives the front only.
pub calc_checksum-front :
    (front rest : Bytes) {c : ℕ}
    → get_elem? (front ++ rest) 2 ≡ some (length front)
    → get_elem? (front ++ rest) 3 ≡ some c
    → calc_checksum (front ++ rest) ≡ some (bit_xor (xor_all 0 front) c)
unfolding calc_checksum
calc_checksum-front front rest sized e = rw (sized, checksum_loop-append front rest 0, e)
