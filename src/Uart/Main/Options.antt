-- ===== src/Uart/Main/Options.antt =====
-- What the options of main.c come to, and what _send_10 sends.
use clpsz_demos.Base.{
  ℕ, zero, suc, ◌+◌, ◌*◌, ◌≤◌, ◌≡◌, refl, ap, ◌∙◌, Option, none, some, List, [], ◌∷◌, ◌++◌, Bytes,
  All, arith, length, take, drop, length-append, length-drop,
}
use clpsz_demos.Terminal.{Masks}
use clpsz_demos.Uart.Block.{write_bytes, write_bytes_front, read_bytes-take}
use clpsz_demos.Uart.Main.{
  Opt, opt_s, opt_r, opt_unknown, opt_other, send, receive, Settings, defaults, read_options, Link,
  start, ser_cmd_init, little_endian, fill_buf, send_10,
}

-- The options that main knows.
abbrev pub IsKnown : Opt → Type 0
IsKnown (opt_s optarg) = Unit
IsKnown opt_r = Unit
IsKnown opt_unknown = ⊥
IsKnown (opt_other n) = ⊥

-- What the last option settles.
abbrev pub Settles : Opt → Settings → Type 0
Settles (opt_s optarg) v = (v.g_uartx ≡ 0) × (v.send_or_receive ≡ send) × (v.str_to_send ≡ optarg)
Settles opt_r v = (v.g_uartx ≡ 1) × (v.send_or_receive ≡ receive)
Settles o v = ⊥

read_options-Settles :
    (opts : List Opt) (o : Opt) (s : Settings)
    → All IsKnown opts
    → IsKnown o
    → (v : Settings) × (read_options (opts ++ o ∷ []) s ≡ some v) × Settles o v
unfolding read_options
read_options-Settles [] (opt_s optarg) s known last =
    (record { str_to_send = optarg; g_uartx = 0; send_or_receive = send }, refl, (refl, refl, refl))
read_options-Settles [] opt_r s known last =
    (record s { g_uartx = 1; send_or_receive = receive }, refl, (refl, refl))
read_options-Settles [] opt_unknown s known last = absurd last
read_options-Settles [] (opt_other n) s known last = absurd last
read_options-Settles (opt_s optarg ∷ opts) o s known last =
    read_options-Settles opts o _ known.1 last
read_options-Settles (opt_r ∷ opts) o s known last = read_options-Settles opts o _ known.1 last
read_options-Settles (opt_unknown ∷ opts) o s known last = absurd known.0
read_options-Settles (opt_other n ∷ opts) o s known last = absurd known.0

-- When main knows all options, the last one decides whether the program sends or receives, with
-- g_uartx 0 for a sender and 1 for a receiver, and the line is initialised for that role.
pub start-Settles :
    (masks : Masks) (open_device : Bytes → Option ℕ) (opts : List Opt) (o : Opt) (w : Link)
    → All IsKnown opts
    → IsKnown o
    → (v : Settings) × (start masks open_device (opts ++ o ∷ []) w
        ≡ some (v, (ser_cmd_init masks open_device v.g_uartx w).1))
      × Settles o v
unfolding start
start-Settles masks open_device opts o w known last =
    let (v, reads, settles) = read_options-Settles opts o defaults known last in
    (v, rw reads, settles)

read_options_unknown :
    (opts rest : List Opt) (o : Opt) (s : Settings)
    → ¬ IsKnown o
    → read_options (opts ++ o ∷ rest) s ≡ none
unfolding read_options
read_options_unknown [] rest (opt_s optarg) s other = absurd (other tt)
read_options_unknown [] rest opt_r s other = absurd (other tt)
read_options_unknown [] rest opt_unknown s other = refl
read_options_unknown [] rest (opt_other n) s other = refl
read_options_unknown (opt_s optarg ∷ opts) rest o s other = read_options_unknown opts rest o _ other
read_options_unknown (opt_r ∷ opts) rest o s other = read_options_unknown opts rest o _ other
read_options_unknown (opt_unknown ∷ opts) rest o s other = refl
read_options_unknown (opt_other n ∷ opts) rest o s other = refl

-- An option that main does not know, wherever it stands, ends the program before the line is
-- touched.
start_unknown :
    (masks : Masks) (open_device : Bytes → Option ℕ) (opts rest : List Opt) (o : Opt) (w : Link)
    → ¬ IsKnown o
    → start masks open_device (opts ++ o ∷ rest) w ≡ none
unfolding start
start_unknown masks open_device opts rest o w other =
    rw (read_options_unknown opts rest o defaults other)

-- A write behind the first `n` bytes succeeds within the block and leaves them alone.
record Apart (off n : ℕ) (xs b : Bytes) : Type 0 where
  block : Bytes
  result : write_bytes off xs b ≡ some block
  size : length block ≡ length b
  front : take n block ≡ take n b

Apart-cons :
    {off n : ℕ} {xs b : Bytes} (y : ℕ) → Apart off n xs b → Apart (suc off) (suc n) xs (y ∷ b)
unfolding write_bytes
Apart-cons y a = record {
  block = y ∷ a.block;
  result = rw a.result;
  size = ap suc a.size;
  front = ap (λ t. y ∷ t) a.front;
}

to_Apart : (off n : ℕ) (xs b : Bytes) → n ≤ off → off + length xs ≤ length b → Apart off n xs b
unfolding write_bytes
to_Apart zero zero xs b low fits = record {
  block = xs ++ drop (length xs) b;
  result = write_bytes_front xs b (omega arith);
  size = omega (arith, length-append xs (drop (length xs) b), length-drop (length xs) b);
  front = refl;
}
to_Apart (suc off) zero xs [] low fits = absurd (omega arith)
to_Apart (suc off) zero xs (y ∷ b) low fits =
    let a = to_Apart off zero xs b (omega arith) (omega arith) in
    record { block = y ∷ a.block; result = rw a.result; size = ap suc a.size; front = refl }
to_Apart zero (suc n) xs b low fits = absurd (omega arith)
to_Apart (suc off) (suc n) xs [] low fits = absurd (omega arith)
to_Apart (suc off) (suc n) xs (y ∷ b) low fits =
    Apart-cons y (to_Apart off n xs b (omega arith) (omega arith))

-- The array of _send_10 when ser_cmd_send is called.
pub record Filled (stale : Bytes) : Type 0 where
  pub buf : Bytes
  pub result : fill_buf stale ≡ some buf
  pub size : length buf ≡ 512
  pub front : take 16 buf ≡ little_endian 8 123456789 ++ take 8 (drop 8 stale)

pub to_Filled : (stale : Bytes) → length stale ≡ 512 → Filled stale
unfolding fill_buf little_endian
to_Filled stale size =
    let card = little_endian 8 123456789 in
    let first = card ++ drop 8 stale in
    let rest : length (drop 8 stale) ≡ 504 = omega (arith, length-drop 8 stale) in
    let a = to_Apart (8 * 8) 16 (little_endian 4 12345678) first (omega arith) (omega arith) in
    let b =
      to_Apart (12 * 8) 16 (little_endian 4 87654321) a.block (omega arith)
        (omega (arith, a.size)) in
    record {
      buf = b.block;
      result = rw (write_bytes_front card stale (omega arith), a.result, b.result);
      size = omega (arith, a.size, b.size);
      front = b.front ∙ a.front;
    }

-- _send_10 sends the card number and then eight bytes that the array held before: the two times
-- are written 64 and 96 bytes on, and are not sent.
send_10_stale :
    (stale : Bytes)
    → length stale ≡ 512
    → send_10 stale ≡ some (little_endian 8 123456789 ++ take 8 (drop 8 stale))
unfolding send_10
send_10_stale stale size =
    let f = to_Filled stale size in
    rw (f.result, read_bytes-take 16 f.buf (omega (arith, f.size)), f.front)
