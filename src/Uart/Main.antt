-- ===== src/Uart/Main.antt =====
-- main.c of linux/uart_communicate_protocol: the options, the line, and the packet that is sent
-- every two seconds.
pub mod Loop
pub mod Options
pub mod Rounds
mod Tests
use clpsz_demos.Base.{
  ℕ, suc, ◌*◌, ◌^◌, ◌+◌, ◌/◌, ◌%◌, zero, Option, none, some, List, [], ◌∷◌, ◌++◌, Bytes, Bool, true,
  false, ◌==◌, codes, if◌then◌else◌,
}
use clpsz_demos.Base.Maybe.{◌>>=◌}
use clpsz_demos.Terminal.{Termios, Masks, configure}
use clpsz_demos.Uart.Block.{read_bytes, write_bytes}
use clpsz_demos.Uart.Packet.{ErrCode, err_ok}

-- What getopt(argc, argv, "s:r") returns, with optarg; `other` is any other value but -1.
pub data Opt : Type 0 where
  opt_s : (optarg : Bytes) → Opt
  opt_r opt_unknown : Opt
  opt_other : ℕ → Opt

pub data Role : Type 0 where
  send receive : Role

-- g_uartx and the locals of main that the options set.
pub record Settings : Type 0 where
  pub str_to_send : Bytes
  pub g_uartx : ℕ
  pub send_or_receive : Role

abbrev pub defaults : Settings
defaults = record { str_to_send = codes "default send string"; g_uartx = 1; send_or_receive = send }

-- The loop over the options: `none` is the usage text and exit(0).
unfoldable pub read_options : List Opt → Settings → Option Settings
read_options [] s = some s
read_options (opt_s optarg ∷ opts) s =
    read_options opts (record { str_to_send = optarg; g_uartx = 0; send_or_receive = send })
read_options (opt_r ∷ opts) s =
    read_options opts (record s { g_uartx = 1; send_or_receive = receive })
read_options (opt_unknown ∷ opts) s = none
read_options (opt_other n ∷ opts) s = none

-- The statics of ser_hal.c, the attributes of the terminal and the open descriptors.
pub record Link : Type 0 where
  pub serial_fd : Option ℕ
  pub init_options : Termios
  pub attributes : Termios
  pub fds : List ℕ
  pub input_flushes : ℕ

abbrev pub write_dev : Bytes
write_dev = codes "/dev/console"

abbrev pub read_dev : Bytes
read_dev = codes "/dev/console"

-- open and the masks are the kernel's; `none` is -1.
module _ (masks : Masks) (open_device : Bytes → Option ℕ) where
  unfoldable pub init_serial : (dev_name : Bytes) → Link → Option ℕ × Link
  init_serial dev_name w = elim (open_device dev_name) [
    | none ↦ (none, w)
    | some fd ↦ (
      some fd,
      record w {
        fds = fd ∷ w.fds;
        init_options = w.attributes;
        attributes = configure masks w.attributes;
        input_flushes = suc w.input_flushes;
      },
    )
  ]

  unfoldable pub ser_hal_init : (g_uartx : ℕ) → Link → Link
  ser_hal_init g_uartx w =
      let (fd, v) = init_serial (if g_uartx == 0 then write_dev else read_dev) w in
      record v { serial_fd = fd }

  unfoldable pub ser_cmd_init : (g_uartx : ℕ) → Link → ErrCode × Link
  ser_cmd_init g_uartx w = (err_ok, ser_hal_init g_uartx w)

  -- main until it starts to send or to receive: `none` is the usage text and exit(0).
  unfoldable pub start : List Opt → Link → Option (Settings × Link)
  start opts w = do s ← read_options opts defaults; some (s, (ser_cmd_init s.g_uartx w).1)

-- A number in `n` bytes, the low one first.
unfoldable pub little_endian : (n : ℕ) → ℕ → Bytes
little_endian zero x = []
little_endian (suc n) x = x % 2 ^ 8 ∷ little_endian n (x / 2 ^ 8)

-- `buf` in _send_10 is an array of 64 pointers of 8 bytes each, so that `buf + 8` is 64 bytes on.
-- What the array holds after the copies, from what it held before.
unfoldable pub fill_buf : (stale : Bytes) → Option Bytes
fill_buf stale = do
  with_card ← write_bytes 0 (little_endian 8 123456789) stale
  with_in ← write_bytes (8 * 8) (little_endian 4 12345678) with_card
  write_bytes (12 * 8) (little_endian 4 87654321) with_in

-- The 16 bytes of the array that ser_cmd_send is told to send.
unfoldable pub send_10 : (stale : Bytes) → Option Bytes
unfolding fill_buf
send_10 stale = do buf ← fill_buf stale; read_bytes 0 16 buf
