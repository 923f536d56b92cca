-- ===== src/Uart/Packet/RoundTrip.antt =====
-- What _build_pkt leaves in a fresh block, and that the receiver's check accepts it.
use clpsz_demos.Base.{
  ℕ, ◌+◌, ◌≤◌, ◌≡◌, refl, ap, sym, ≡→==, ◌∙◌, bit_xor, Option, none, some, [], ◌∷◌, ◌++◌, arith,
  length, u8, Bytes, get_elem?,
}
use clpsz_demos.Base.Bits.{bit_xor_cancel, bit_xor_self}
use clpsz_demos.Uart.Block.{read_bytes, write_bytes_whole, read_bytes_whole, read_bytes-append}
use clpsz_demos.Uart.Packet.{err_ok, calc_checksum, mac_parse, build_pkt, hdr_len}
use clpsz_demos.Uart.Packet.Checksum.{xor_all, xor_all-start, calc_checksum-xor_all, mac_parse_lem}

-- The bytes of a packet but for check_sum, in order.
abbrev pub summed : (cmd sn : ℕ) → Bytes → Bytes
summed cmd sn xs = 0x40 ∷ 0x3e ∷ (hdr_len + length xs) ∷ sn ∷ cmd ∷ xs

-- The packet that carries `xs`, as README describes it: check_sum is the exclusive or of all
-- other bytes.
unfoldable pub packet : (cmd sn : ℕ) → Bytes → Bytes
packet cmd sn xs =
    0x40 ∷ 0x3e ∷ (hdr_len + length xs) ∷ xor_all 0 (summed cmd sn xs) ∷ sn ∷ cmd ∷ xs

pub length-packet : (cmd sn : ℕ) (xs : Bytes) → length (packet cmd sn xs) ≡ 6 + length xs
unfolding packet
length-packet cmd sn xs = omega arith

pub sized :
    (cmd sn c : ℕ) (xs : Bytes)
    → get_elem? (0x40 ∷ 0x3e ∷ (hdr_len + length xs) ∷ c ∷ sn ∷ cmd ∷ xs) 2
      ≡ some (length (0x40 ∷ 0x3e ∷ (hdr_len + length xs) ∷ c ∷ sn ∷ cmd ∷ xs))
sized cmd sn c xs = ap {B = Option ℕ} some (omega arith)

-- Whatever check_sum holds drops out of the sum.
pub sum-packet :
    (cmd sn c : ℕ) (xs : Bytes)
    → bit_xor (xor_all 0 (0x40 ∷ 0x3e ∷ (hdr_len + length xs) ∷ c ∷ sn ∷ cmd ∷ xs)) c
      ≡ xor_all 0 (summed cmd sn xs)
unfolding xor_all
sum-packet cmd sn c xs =
    ap (λ (t : ℕ). bit_xor t c)
      (xor_all-start (bit_xor (bit_xor (bit_xor 0 0x40) 0x3e) (hdr_len + length xs)) c
        (sn ∷ cmd ∷ xs))
    ∙ bit_xor_cancel _ c

calc_checksum-packet :
    (cmd sn c : ℕ) (xs : Bytes)
    → calc_checksum (0x40 ∷ 0x3e ∷ (hdr_len + length xs) ∷ c ∷ sn ∷ cmd ∷ xs)
      ≡ some (xor_all 0 (summed cmd sn xs))
calc_checksum-packet cmd sn c xs =
    calc_checksum-xor_all _ (sized cmd sn c xs) refl ∙ ap some (sum-packet cmd sn c xs)

pub xor_all-packet : (cmd sn : ℕ) (xs : Bytes) → xor_all 0 (packet cmd sn xs) ≡ 0
unfolding packet
xor_all-packet cmd sn xs =
    let sum = xor_all 0 (summed cmd sn xs) in
    sym (bit_xor_cancel (xor_all 0 (packet cmd sn xs)) sum)
    ∙ ap (λ (t : ℕ). bit_xor t sum) (sum-packet cmd sn sum xs)
    ∙ bit_xor_self sum

-- The receiver's check accepts every packet of this form.
pub mac_parse-packet : (cmd sn : ℕ) (xs : Bytes) → mac_parse (packet cmd sn xs) ≡ some err_ok
unfolding packet
mac_parse-packet cmd sn xs =
    mac_parse_lem _ (sized cmd sn (xor_all 0 (summed cmd sn xs)) xs) refl refl refl
    ∙ rw (≡→== _ 0 (xor_all-packet cmd sn xs))

nil_of_length : (xs : Bytes) → length xs ≡ 0 → xs ≡ []
nil_of_length [] h = refl
nil_of_length (x ∷ xs) h = absurd (omega arith)

-- A block that holds at least a header.
pub record Block (n : ℕ) (block : Bytes) : Type 0 where
  pub a : ℕ
  pub b : ℕ
  pub c : ℕ
  pub d : ℕ
  pub e : ℕ
  pub f : ℕ
  pub rest : Bytes
  pub parts : block ≡ a ∷ b ∷ c ∷ d ∷ e ∷ f ∷ rest
  pub behind : length rest ≡ n

pub to_Block : (n : ℕ) (block : Bytes) → length block ≡ 6 + n → Block n block
to_Block n [] h = absurd (omega arith)
to_Block n (a ∷ []) h = absurd (omega arith)
to_Block n (a ∷ b ∷ []) h = absurd (omega arith)
to_Block n (a ∷ b ∷ c ∷ []) h = absurd (omega arith)
to_Block n (a ∷ b ∷ c ∷ d ∷ []) h = absurd (omega arith)
to_Block n (a ∷ b ∷ c ∷ d ∷ e ∷ []) h = absurd (omega arith)
to_Block n (a ∷ b ∷ c ∷ d ∷ e ∷ f ∷ rest) h = record {
  a = a;
  b = b;
  c = c;
  d = d;
  e = e;
  f = f;
  rest = rest;
  parts = refl;
  behind = omega arith;
}

-- In a block of the right size, whatever it holds, _build_pkt writes exactly that packet.
pub build_pkt-packet :
    (cmd sn : ℕ) (xs more block : Bytes)
    → length xs ≤ 249
    → length block ≡ 6 + length xs
    → build_pkt cmd sn block (some (xs ++ more)) (length xs) ≡ some (packet cmd sn xs)
unfolding build_pkt packet
build_pkt-packet cmd sn xs more block small fits =
    let t = to_Block (length xs) block fits in
    let len : u8 (hdr_len + length xs) ≡ hdr_len + length xs = omega arith in
    rw (
      t.parts,
      len,
      read_bytes-append xs more,
      write_bytes_whole xs t.rest (omega arith),
      calc_checksum-packet cmd sn t.d xs,
    )

-- With no data and length 0 it writes the packet with no data.
pub build_pkt_empty :
    (cmd sn : ℕ) (block : Bytes)
    → length block ≡ 6
    → build_pkt cmd sn block none 0 ≡ some (packet cmd sn [])
unfolding build_pkt packet xor_all
build_pkt_empty cmd sn block fits =
    let t = to_Block 0 block fits in
    rw (t.parts, nil_of_length t.rest t.behind)
      (ap (λ (sum : ℕ). some (0x40 ∷ 0x3e ∷ 6 ∷ sum ∷ sn ∷ cmd ∷ [])) (sum-packet cmd sn t.d []))

pub sized-packet :
    (cmd sn : ℕ) (xs : Bytes) → get_elem? (packet cmd sn xs) 2 ≡ some (length (packet cmd sn xs))
unfolding packet
sized-packet cmd sn xs = sized cmd sn (xor_all 0 (summed cmd sn xs)) xs

pub cmd-packet : (cmd sn : ℕ) (xs : Bytes) → get_elem? (packet cmd sn xs) 5 ≡ some cmd
unfolding packet
cmd-packet cmd sn xs = refl

pub sn-packet : (cmd sn : ℕ) (xs : Bytes) → get_elem? (packet cmd sn xs) 4 ≡ some sn
unfolding packet
sn-packet cmd sn xs = refl

-- What _build_pkt makes of a payload of at most 249 bytes, the receiver's check accepts, and the
-- fields and the payload are read back from it.
pub build_pkt-mac_parse :
    (cmd sn : ℕ) (xs more block : Bytes)
    → length xs ≤ 249
    → length block ≡ 6 + length xs
    → (pkt : Bytes) × (build_pkt cmd sn block (some (xs ++ more)) (length xs) ≡ some pkt)
      × (mac_parse pkt ≡ some err_ok)
      × (get_elem? pkt 2 ≡ some (length pkt))
      × (get_elem? pkt 4 ≡ some sn)
      × (get_elem? pkt 5 ≡ some cmd)
      × (read_bytes 6 (length xs) pkt ≡ some xs)
unfolding packet read_bytes
build_pkt-mac_parse cmd sn xs more block small fits = (
  packet cmd sn xs,
  build_pkt-packet cmd sn xs more block small fits,
  mac_parse-packet cmd sn xs,
  sized-packet cmd sn xs,
  refl,
  refl,
  read_bytes_whole xs,
)
