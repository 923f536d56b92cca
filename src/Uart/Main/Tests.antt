-- ===== src/Uart/Main/Tests.antt =====
-- Runs of main.c at concrete options.
use clpsz_demos.Base.{ℕ, zero, suc, ◌≡◌, refl, Option, some, List, [], ◌∷◌, ◌++◌, Bytes, codes}
use clpsz_demos.Terminal.{Masks, Termios}
use clpsz_demos.Uart.Main.{opt_s, opt_r, Settings, Link, start, ser_cmd_init}
use clpsz_demos.Uart.State.{Serial, find_block}
use clpsz_demos.Uart.Sample
use clpsz_demos.Uart.Sample.{plain, plain-Plenty}
use clpsz_demos.Uart.Main.Loop.{Stack}
use clpsz_demos.Uart.Main.Rounds.{IsStack, Rounds, AfterRounds, send_10_now-Rounds}
use clpsz_demos.Uart.Main.Options.{Settles, start-Settles}

abbrev masks : Masks
masks = record {
  clocal = 0x800;
  cread = 0x80;
  csize = 0x30;
  crtscts = 0x80000000;
  cs8 = 0x30;
  cstopb = 0x40;
  ignpar = 4;
  brkint = 2;
  icrnl = 0x100;
  inpck = 0x10;
  istrip = 0x20;
  ixon = 0x400;
  icanon = 2;
  echo = 8;
  echoe = 0x10;
  isig = 1;
  b9600 = 13;
  cfsetospeed = λ speed t. record t { ospeed = speed };
}

abbrev found : Termios
found = record { c_iflag = 0; c_oflag = 0; c_cflag = 0; c_lflag = 0; ospeed = 0; others = [] }

abbrev link : Link
link = record {
  serial_fd = some 0;
  init_options = found;
  attributes = found;
  fds = [];
  input_flushes = 0;
}

abbrev opens : Bytes → Option ℕ
opens name = some 3

start-Settles_example :
    (v : Settings) × (start masks opens (opt_s (codes "x") ∷ opt_r ∷ []) link
      ≡ some (v, (ser_cmd_init masks opens v.g_uartx link).1))
    × Settles opt_r v
start-Settles_example = start-Settles masks opens (opt_s (codes "x") ∷ []) opt_r link (tt, tt) tt

abbrev filler : ℕ → Bytes
filler zero = []
filler (suc n) = 0xee ∷ filler n

abbrev stack : Bytes
stack = codes "0123456789abcdef" ++ filler 496

-- Two rounds, from the last serial number.
abbrev rounds : List Stack
rounds = record { array = stack; ret_res = 3 } ∷ record { array = filler 512; ret_res = 0 } ∷ []

abbrev sender : Serial
sender = record Sample.start { send_sn = 255 }

send_10_now-Rounds_example :
    (v : Serial) × (t : Serial) × Rounds plain plain 9000 rounds sender Sample.start v t
    × AfterRounds rounds sender Sample.start v t
unfolding find_block IsStack
send_10_now-Rounds_example =
    send_10_now-Rounds plain plain 9000 plain-Plenty plain-Plenty rounds sender Sample.start
      (refl, (refl, tt)) refl (record { at_start = refl; head_size = refl }) refl
      (record { at_start = refl; head_size = refl })
