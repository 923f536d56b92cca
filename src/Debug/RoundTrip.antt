-- ===== src/Debug/RoundTrip.antt =====
-- The hexadecimal dumps can be read back.
use clpsz_demos.Base.{
  ℕ, ◌+◌, ◌-◌, ◌*◌, ◌/◌, ◌%◌, ◌≡◌, ◌<◌, refl, ap, ◌∙◌, Option, none, some, [], ◌∷◌, ◌++◌, Bytes,
  AreBytes, IsByte, ==→≡, Bool, true, false, leb, ◌&&◌, ◌==◌, if◌then◌else◌, codes, arith,
  append_assoc, append-nil,
}
use clpsz_demos.Base.Tables.{holds_up_to, holds_at}
use clpsz_demos.Debug.{hex_digit, separators, dump_byte, dump_loop, dump, hex_dump}

-- The value of a digit of %X; other characters have none.
unfoldable pub digit_value : ℕ → Option ℕ
digit_value c =
    if leb b'0' c && leb c b'9'
    then some (c - b'0')
    else if leb b'A' c && leb c b'F'
    then some (c - b'A' + 10)
    else none

abbrev pub digit_onto : Option ℕ → Bytes → Bytes
digit_onto none ds = ds
digit_onto (some d) ds = d ∷ ds

unfoldable pub digits : Bytes → Bytes
digits [] = []
digits (c ∷ cs) = digit_onto (digit_value c) (digits cs)

unfoldable pub in_pairs : Bytes → Bytes
in_pairs [] = []
in_pairs (d ∷ []) = []
in_pairs (d ∷ e ∷ ds) = (d * 16 + e) ∷ in_pairs ds

-- The bytes that a text shows: its digits, two by two.
abbrev pub undump : Bytes → Bytes
undump text = in_pairs (digits text)

digit_onto-append : (o : Option ℕ) (xs ys : Bytes) → digit_onto o (xs ++ ys) ≡ digit_onto o xs ++ ys
digit_onto-append none xs ys = refl
digit_onto-append (some d) xs ys = refl

digits-append : (xs ys : Bytes) → digits (xs ++ ys) ≡ digits xs ++ digits ys
unfolding digits
digits-append [] ys = refl
digits-append (x ∷ xs) ys =
    ap (digit_onto (digit_value x)) (digits-append xs ys) ∙ digit_onto-append (digit_value x) _ _

-- Whether the digit of d has the value d.
abbrev has_value : (d : ℕ) → Option ℕ → Bool
has_value d none = false
has_value d (some e) = e == d

abbrev reads_back : ℕ → Bool
reads_back d = has_value d (digit_value (hex_digit d))

has_value-some : (d : ℕ) (o : Option ℕ) → has_value d o ≡ true → o ≡ some d
has_value-some d none same = ground arith
has_value-some d (some e) same = ap some (==→≡ e d same)

digit_table : holds_up_to reads_back 16 ≡ true
unfolding holds_up_to digit_value hex_digit
digit_table = refl

digit_value-hex_digit : (d : ℕ) → d < 16 → digit_value (hex_digit d) ≡ some d
digit_value-hex_digit d small =
    has_value-some d (digit_value (hex_digit d)) (holds_at reads_back 16 digit_table d small)

-- The separators have no digits.
digits-separator :
    (b : Bool) (c : ℕ) → digit_value c ≡ none → digits (if b then c ∷ [] else []) ≡ []
unfolding digits
digits-separator false c blank = refl
digits-separator true c blank = rw blank

blank_space : digit_value 0x20 ≡ none
unfolding digit_value
blank_space = refl

blank_newline : digit_value 0x0a ≡ none
unfolding digit_value
blank_newline = refl

digits-separators : (i : ℕ) → digits (0x20 ∷ separators i) ≡ []
unfolding digits separators
digits-separators i = rw blank_space (
    digits-append (if i % 8 == 7 then 0x20 ∷ [] else []) (if i % 16 == 15 then 0x0a ∷ [] else [])
    ∙ cc (
      digits-separator (i % 8 == 7) _ blank_space,
      digits-separator (i % 16 == 15) _ blank_newline,
    ))

digits-pair :
    (d e : ℕ) (xs : Bytes)
    → d < 16
    → e < 16
    → digits (hex_digit d ∷ hex_digit e ∷ xs) ≡ d ∷ e ∷ digits xs
unfolding digits
digits-pair d e xs d_small e_small =
    rw (digit_value-hex_digit d d_small, digit_value-hex_digit e e_small)

digits-dump_byte : (i x : ℕ) → IsByte x → digits (dump_byte i x) ≡ x / 16 ∷ x % 16 ∷ []
unfolding dump_byte
digits-dump_byte i x byte =
    digits-pair (x / 16) (x % 16) _ (omega arith) (omega arith)
    ∙ ap (λ ds. x / 16 ∷ x % 16 ∷ ds) (digits-separators i)

dump_loop-∷ : (i x : ℕ) (xs : Bytes) → dump_loop i (x ∷ xs) ≡ dump_byte i x ++ dump_loop (i + 1) xs
unfolding dump_loop
dump_loop-∷ i x xs = refl

in_pairs-digits : (i : ℕ) (xs : Bytes) → AreBytes xs → in_pairs (digits (dump_loop i xs)) ≡ xs
unfolding digits dump_loop in_pairs
in_pairs-digits i [] bytes = refl
in_pairs-digits i (x ∷ xs) (byte, bytes) =
    ap undump (dump_loop-∷ i x xs)
    ∙ ap in_pairs (digits-append (dump_byte i x) (dump_loop (i + 1) xs))
    ∙ rw (digits-dump_byte i x byte, in_pairs-digits (i + 1) xs bytes) (ap (◌∷ xs) (omega arith))

-- A text between two that have no digits.
undump-between :
    (before after : Bytes) (xs : Bytes)
    → digits before ≡ []
    → digits after ≡ []
    → AreBytes xs
    → undump (before ++ dump_loop 0 xs ++ after) ≡ xs
undump-between before after xs no_before no_after bytes =
    ap in_pairs (
      digits-append (before ++ dump_loop 0 xs) after
      ∙ rw (digits-append before (dump_loop 0 xs), no_before, no_after) (append-nil _))
    ∙ in_pairs-digits 0 xs bytes

hex_dump_end :
    (b : Bool)
    → digits (
        (if b then [] else codes "\n")
        ++ codes "********************** end **********************\n")
      ≡ []
unfolding digits digit_value
hex_dump_end false = refl
hex_dump_end true = refl

dump_start : digits (codes "************************************************\n") ≡ []
unfolding digits digit_value
dump_start = refl

dump_end : digits (codes "\n") ≡ []
unfolding digits digit_value
dump_end = refl

hex_dump_start : digits (codes "**********************start**********************\n") ≡ []
unfolding digits digit_value
hex_dump_start = refl

-- The text that each of the two dumps prints of a buffer shows the bytes of the buffer and
-- nothing else: the hexadecimal digits of the text, taken two by two, are the bytes, in their
-- order. `undump` reads all upper-case hexadecimal digits of a text, from the headers too.
pub dump-undump :
    (buf : Bytes) → AreBytes buf → (undump (dump buf) ≡ buf) × (undump (hex_dump buf) ≡ buf)
unfolding dump hex_dump
dump-undump buf bytes = (
  undump-between _ _ buf dump_start dump_end bytes,
  rw append_assoc (undump-between _ _ buf hex_dump_start (hex_dump_end _) bytes),
)
