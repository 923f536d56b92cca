-- ===== src/Terminal.antt =====
-- linux/uart_send_recv/main.c, and the attributes of a serial line as init_serial sets them there
-- and in linux/uart_communicate_protocol/ser_hal.c.
pub mod Flags
pub mod Restore
mod Tests
use clpsz_demos.Base.{
  ℕ, suc, ◌≡◌, ◌-◌, ◌^◌, ◌≤◌, bit_and, bit_or, Option, none, some, List, [], ◌∷◌, ◌++◌, Bytes, Bool,
  true, false, ◌==◌, if◌then◌else◌, codes, length, take,
}
use clpsz_demos.Base.Maybe.{◌>>=◌}
use clpsz_demos.Domain.{close_fd}
use clpsz_demos.Uart.Block.{read_bytes}

-- The fields of struct termios that the code touches; `ospeed` is c_ospeed, which cfsetospeed
-- sets, and `others` stands for the rest.
pub record Termios : Type 0 where
  pub c_iflag : ℕ
  pub c_oflag : ℕ
  pub c_cflag : ℕ
  pub c_lflag : ℕ
  pub ospeed : ℕ
  pub others : Bytes

-- The masks of termios.h, and cfsetospeed of the C library.
pub record Masks : Type 0 where
  pub clocal : ℕ
  pub cread : ℕ
  pub csize : ℕ
  pub crtscts : ℕ
  pub cs8 : ℕ
  pub cstopb : ℕ
  pub ignpar : ℕ
  pub brkint : ℕ
  pub icrnl : ℕ
  pub inpck : ℕ
  pub istrip : ℕ
  pub ixon : ℕ
  pub icanon : ℕ
  pub echo : ℕ
  pub echoe : ℕ
  pub isig : ℕ
  pub b9600 : ℕ
  pub cfsetospeed : (speed : ℕ) → Termios → Termios

-- `~m` of a tcflag_t.
abbrev pub not32 : ℕ → ℕ
not32 m = 2 ^ 32 - 1 - m

-- `w |= m` and `w &= ~m`.
abbrev pub raise : (w m : ℕ) → ℕ
raise w m = bit_or w m

abbrev pub clear : (w m : ℕ) → ℕ
clear w m = bit_and w (not32 m)

unfoldable pub input_mask : Masks → ℕ
input_mask m = bit_or (bit_or (bit_or (bit_or m.brkint m.icrnl) m.inpck) m.istrip) m.ixon

unfoldable pub local_mask : Masks → ℕ
local_mask m = bit_or (bit_or (bit_or m.icanon m.echo) m.echoe) m.isig

-- The assignments to `options`, and then cfsetospeed.
unfoldable pub configure : Masks → Termios → Termios
configure m t = m.cfsetospeed m.b9600 (record t {
  c_cflag =
      clear
        (raise (clear (clear (raise t.c_cflag (bit_or m.clocal m.cread)) m.csize) m.crtscts) m.cs8)
        m.cstopb;
  c_iflag = clear (raise t.c_iflag m.ignpar) (input_mask m);
  c_oflag = 0;
  c_lflag = clear 1 (local_mask m);
})

-- What the kernel answers. `none` is -1; `ready` is FD_ISSET after select.
pub record Tty : Type 0 where
  pub masks : Masks
  pub open_device : Bytes → Option ℕ
  pub write : Bytes → Option ℕ
  pub ready : Bool
  pub read : (count : ℕ) → Option Bytes
  -- read stores at most `count` bytes.
  pub read_bounded : (count : ℕ) (xs : Bytes) → read count ≡ some xs → length xs ≤ count

-- The static variables, the attributes of the terminal, the open descriptors, what was written,
-- and the numbers of flushes. Texts that are printed are left out.
pub record Demo : Type 0 where
  pub serial_fd : Option ℕ
  pub init_options : Termios
  pub attributes : Termios
  pub fds : List ℕ
  pub written : List Bytes
  pub input_flushes : ℕ
  pub output_flushes : ℕ

abbrev pub device : Bytes
device = codes "/dev/console"

module _ (k : Tty) where
  -- The result is 0, or `none` for -1.
  unfoldable pub init_serial : Demo → Option ℕ × Demo
  init_serial w = elim (k.open_device device) [
    | none ↦ (none, record w { serial_fd = none })
    | some fd ↦ (
      some 0,
      record w {
        serial_fd = some fd;
        fds = fd ∷ w.fds;
        init_options = w.attributes;
        attributes = configure k.masks w.attributes;
        input_flushes = suc w.input_flushes;
      },
    )
  ]

  -- What was given to write(2), whether or not it took all of it. A descriptor of -1 takes
  -- nothing, and nothing is flushed.
  abbrev pub offered : Option ℕ → Bytes → Demo → Demo
  offered none xs w = w
  offered (some fd) xs w = record w { written = w.written ++ xs ∷ [] }

  abbrev pub flushed : Option ℕ → Demo → Demo
  flushed none w = w
  flushed (some fd) w = record w { output_flushes = suc w.output_flushes }

  unfoldable pub took_all : Option ℕ → (xs : Bytes) → (datalen : ℕ) → Bool
  took_all none xs datalen = false
  took_all (some fd) xs datalen = elim (k.write xs) [ none ↦ false | some len ↦ len == datalen ]

  unfoldable pub uart_send :
      (fd : Option ℕ) (buf : Bytes) (datalen : ℕ) → Demo → Option (Option ℕ × Demo)
  uart_send fd buf datalen w = do
    xs ← read_bytes 0 datalen buf
    if took_all fd xs datalen
        then some (some datalen, offered fd xs w)
        else some (none, flushed fd (offered fd xs w))

  -- FD_SET of -1 is undefined. The bytes that are read, or `none` for -1.
  unfoldable pub uart_recv : (fd : Option ℕ) (datalen : ℕ) → Option (Option Bytes)
  uart_recv none datalen = none
  uart_recv (some fd) datalen = some (if k.ready then k.read datalen else none)

  -- tcsetattr and close at the end of main; on -1 they do nothing.
  unfoldable pub restore : Option ℕ → Demo → Demo
  restore none w = w
  restore (some fd) w = record w {
    attributes = w.init_options;
    fds = close_fd fd w.fds;
    input_flushes = suc w.input_flushes;
  }

  unfoldable pub main : Demo → Option Demo
  main w = do
    let opened = (init_serial w).1
    sent ← uart_send opened.serial_fd (codes "hello world" ++ 0 ∷ []) 10 opened
    received ← uart_recv sent.1.serial_fd 10
    some (restore sent.1.serial_fd sent.1)
