-- ===== src/Terminal/Flags.antt =====
-- Which flags init_serial sets and clears, digit by digit.
use clpsz_demos.Base.{ℕ, ◌+◌, ◌-◌, ◌^◌, ◌≤◌, ◌<◌, ◌≡◌, ap, ◌∙◌, min, max, arith, bit_or}
use clpsz_demos.Base.Digits.{bit, bit-lt, bit-bit_and, bit-bit_or, bit_complement}
use clpsz_demos.Terminal.{Termios, Masks, not32, raise, clear, configure, input_mask, local_mask}

pub bit-raise : (i w m : ℕ) → bit i (raise w m) ≡ max (bit i w) (bit i m)
bit-raise = bit-bit_or

pub bit-clear : (i w m : ℕ) → m < 2 ^ 32 → i < 32 → bit i (clear w m) ≡ min (bit i w) (1 - bit i m)
bit-clear i w m small place =
    bit-bit_and i w (not32 m) ∙ ap (min (bit i w)) (bit_complement 32 i m small place)

-- The flags of c_cflag that the code names.
abbrev pub named : Masks → (i : ℕ) → ℕ
named m i = bit i m.clocal + bit i m.cread + bit i m.csize + bit i m.crtscts + bit i m.cstopb

-- What termios.h says of the masks: they are 32-bit words, no digit has two names, CS8 is a
-- value of the field CSIZE, and IGNPAR is none of the flags that are cleared. cfsetospeed makes
-- the speed the value of a field of c_cflag of its own, `cbaud`, and keeps all other digits.
pub record IsTermios (m : Masks) (cbaud : ℕ) : Type 0 where
  pub csize_small : m.csize < 2 ^ 32
  pub crtscts_small : m.crtscts < 2 ^ 32
  pub cstopb_small : m.cstopb < 2 ^ 32
  pub input_small : input_mask m < 2 ^ 32
  pub one_name : (i : ℕ) → i < 32 → named m i + bit i cbaud ≤ 1
  pub cs8_in_csize : (i : ℕ) → i < 32 → bit i m.cs8 ≤ bit i m.csize
  pub ignpar_apart : (i : ℕ) → i < 32 → bit i m.ignpar + bit i (input_mask m) ≤ 1
  pub speed_set :
      (i : ℕ) (t : Termios)
      → i < 32
      → bit i (m.cfsetospeed m.b9600 t).c_cflag
        ≡ bit i m.b9600 + min (bit i t.c_cflag) (1 - bit i cbaud)
  pub input_kept : (t : Termios) → (m.cfsetospeed m.b9600 t).c_iflag ≡ t.c_iflag

-- The flags before cfsetospeed.
named_flags :
    (m : Masks) (cbaud w i : ℕ)
    → IsTermios m cbaud
    → i < 32
    → bit i (
        clear
          (raise (clear (clear (raise w (bit_or m.clocal m.cread)) m.csize) m.crtscts) m.cs8)
          m.cstopb)
      ≡ bit i m.clocal + bit i m.cread + bit i m.cs8 + min (bit i w) (1 - named m i)
named_flags m cbaud w i is place =
    let w1 = raise w (bit_or m.clocal m.cread) in
    let w2 = clear w1 m.csize in
    let w3 = clear w2 m.crtscts in
    let w4 = raise w3 m.cs8 in
    omega (
      arith,
      bit-raise i w (bit_or m.clocal m.cread),
      bit-bit_or i m.clocal m.cread,
      bit-clear i w1 m.csize is.csize_small place,
      bit-clear i w2 m.crtscts is.crtscts_small place,
      bit-raise i w3 m.cs8,
      bit-clear i w4 m.cstopb is.cstopb_small place,
      is.one_name i place,
      is.cs8_in_csize i place,
      bit-lt i w,
    )

-- A digit that the field of the speed does not have is the one from before.
beside_speed :
    (sets names speed old : ℕ)
    → sets ≤ names
    → names + speed ≤ 1
    → min (sets + min old (1 - names)) (1 - speed) ≡ sets + min old (1 - (names + speed))
beside_speed sets names speed old within one = omega arith

-- init_serial sets CLOCAL, CREAD and IGNPAR, makes the character size CS8 and the speed of
-- c_cflag B9600, clears CRTSCTS, CSTOPB and the five flags of the input mask, and keeps every
-- other digit of c_cflag and c_iflag as it was.
pub configure_flags :
    (m : Masks) (cbaud : ℕ) (t : Termios) (i : ℕ)
    → IsTermios m cbaud
    → i < 32
    → (bit i (configure m t).c_cflag
        ≡ bit i m.clocal
          + bit i m.cread
          + bit i m.cs8
          + bit i m.b9600
          + min (bit i t.c_cflag) (1 - (named m i + bit i cbaud)))
      × (bit i (configure m t).c_iflag
          ≡ bit i m.ignpar + min (bit i t.c_iflag) (1 - (bit i m.ignpar + bit i (input_mask m))))
unfolding configure
configure_flags m cbaud t i is place =
    let set = record t {
      c_cflag =
          clear
            (raise (clear (clear (raise t.c_cflag (bit_or m.clocal m.cread)) m.csize) m.crtscts)
              m.cs8)
            m.cstopb;
      c_iflag = clear (raise t.c_iflag m.ignpar) (input_mask m);
      c_oflag = 0;
      c_lflag = clear 1 (local_mask m);
    } in
    let sets = bit i m.clocal + bit i m.cread + bit i m.cs8 in
    let within : sets ≤ named m i = omega (arith, is.cs8_in_csize i place) in
    (
      is.speed_set i set place
          ∙ ap (λ b. bit i m.b9600 + min b (1 - bit i cbaud))
              (named_flags m cbaud t.c_cflag i is place)
          ∙ ap (λ b. bit i m.b9600 + b)
              (beside_speed sets (named m i) (bit i cbaud) (bit i t.c_cflag) within
                (is.one_name i place))
          ∙ omega arith,
      ap (bit i) (is.input_kept set)
          ∙ omega (
            arith,
            bit-raise i t.c_iflag m.ignpar,
            bit-clear i (raise t.c_iflag m.ignpar) (input_mask m) is.input_small place,
            is.ignpar_apart i place,
            bit-lt i t.c_iflag,
          ),
    )
