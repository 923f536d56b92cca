-- ===== src/Terminal/Tests.antt =====
-- The masks of Linux, and a terminal that takes only part of what is written.
use clpsz_demos.Base.{
  ℕ, ◌+◌, ◌-◌, ◌≤◌, ◌<◌, ◌≡◌, refl, Option, some, [], ◌∷◌, Bytes, codes, true, leb, leb→le, length,
  arith, min,
}
use clpsz_demos.Base.Digits.{bit, bit-lt}
use clpsz_demos.Base.Tables.{holds_up_to, holds_at}
use clpsz_demos.Domain.{is_open}
use clpsz_demos.Terminal.{
  Masks, Termios, Tty, Demo, configure, input_mask, local_mask, main, raise, clear,
}
use clpsz_demos.Terminal.Flags.{IsTermios, named, configure_flags, bit-raise, bit-clear}
use clpsz_demos.Terminal.Restore.{main_restores}

-- CBAUD and CBAUDEX.
abbrev speeds : ℕ
speeds = 0x100f

abbrev linux : Masks
linux = record {
  clocal = 0x800;
  cread = 0x80;
  csize = 0x30;
  crtscts = 0x80000000;
  cs8 = 0x30;
  cstopb = 0x40;
  ignpar = 4;
  brkint = 2;
  icrnl = 0x100;
  inpck = 0x10;
  istrip = 0x20;
  ixon = 0x400;
  icanon = 2;
  echo = 8;
  echoe = 0x10;
  isig = 1;
  b9600 = 13;
  cfsetospeed =
      λ speed t. record t { c_cflag = raise (clear t.c_cflag speeds) speed; ospeed = speed };
}

names_table : holds_up_to (λ i. leb (named linux i + bit i speeds) 1) 32 ≡ true
unfolding holds_up_to
names_table = refl

cs8_table : holds_up_to (λ i. leb (bit i linux.cs8) (bit i linux.csize)) 32 ≡ true
unfolding holds_up_to
cs8_table = refl

speed_table : holds_up_to (λ i. leb (bit i linux.b9600) (bit i speeds)) 32 ≡ true
unfolding holds_up_to
speed_table = refl

ignpar_table : holds_up_to (λ i. leb (bit i linux.ignpar + bit i (input_mask linux)) 1) 32 ≡ true
unfolding holds_up_to input_mask
ignpar_table = refl

speed_in_speeds : (i : ℕ) → i < 32 → bit i linux.b9600 ≤ bit i speeds
speed_in_speeds i h =
    leb→le _ _ (holds_at (λ j. leb (bit j linux.b9600) (bit j speeds)) 32 speed_table i h)

linux-IsTermios : IsTermios linux speeds
unfolding input_mask
linux-IsTermios = record {
  csize_small = omega arith;
  crtscts_small = omega arith;
  cstopb_small = omega arith;
  input_small = omega arith;
  one_name =
      λ i h. leb→le _ 1 (holds_at (λ j. leb (named linux j + bit j speeds) 1) 32 names_table i h);
  cs8_in_csize = λ i h.
      leb→le _ _ (holds_at (λ j. leb (bit j linux.cs8) (bit j linux.csize)) 32 cs8_table i h);
  ignpar_apart = λ i h.
      leb→le _ 1
        (holds_at (λ j. leb (bit j linux.ignpar + bit j (input_mask linux)) 1) 32 ignpar_table i h);
  speed_set = λ i t h. omega (
    arith,
    bit-raise i (clear t.c_cflag speeds) 13,
    bit-clear i t.c_cflag speeds (omega arith) h,
    speed_in_speeds i h,
    bit-lt i t.c_cflag,
  );
  input_kept = λ t. refl;
}

-- Seven bits, two stop bits, echo, and another speed.
abbrev before : Termios
before = record {
  c_iflag = 0x500;
  c_oflag = 5;
  c_cflag = 0x6f;
  c_lflag = 0x8a3b;
  ospeed = 15;
  others = codes "cc";
}

configured :
    configure linux before
    ≡ record before { c_iflag = 4; c_oflag = 0; c_cflag = 0x8bd; c_lflag = 0; ospeed = 13 }
unfolding configure input_mask local_mask
configured = refl

configure_flags_example :
    (bit 1 (configure linux before).c_cflag
      ≡ 0 + 0 + 0 + 0 + min (bit 1 before.c_cflag) (1 - (0 + 1)))
    × (bit 1 (configure linux before).c_iflag ≡ 0 + min (bit 1 before.c_iflag) (1 - (0 + 1)))
unfolding input_mask
configure_flags_example = configure_flags linux speeds before 1 linux-IsTermios (omega arith)

reads_nothing : (count : ℕ) (xs : Bytes) → some [] ≡ some xs → length xs ≤ count
reads_nothing count xs e = ground arith

abbrev tty : (opens : Option ℕ) → Tty
tty opens = record {
  masks = linux;
  open_device = λ name. opens;
  write = λ xs. some 4;
  ready = true;
  read = λ count. some [];
  read_bounded = reads_nothing;
}

abbrev start : Demo
start = record {
  serial_fd = some 0;
  init_options = record before { c_iflag = 0; c_cflag = 0 };
  attributes = before;
  fds = 2 ∷ 1 ∷ 0 ∷ [];
  written = [];
  input_flushes = 0;
  output_flushes = 0;
}

main_restores_example :
    (v : Demo) × (main (tty (some 3)) start ≡ some v)
    × (v.attributes ≡ start.attributes)
    × (v.fds ≡ start.fds)
unfolding is_open
main_restores_example = main_restores (tty (some 3)) start 3 refl refl
