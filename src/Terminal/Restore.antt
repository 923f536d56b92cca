-- ===== src/Terminal/Restore.antt =====
-- main of linux/uart_send_recv/main.c leaves the terminal as it was.
use clpsz_demos.Base.{
  ℕ, suc, ◌≡◌, refl, none, some, [], ◌∷◌, ◌++◌, Bytes, Bool, true, false, codes, inl, inr,
  Bool-cases,
}
use clpsz_demos.Domain.{is_open}
use clpsz_demos.Domain.Descriptors.{close_fd-opened}
use clpsz_demos.Terminal.{
  Tty, Demo, device, init_serial, uart_send, uart_recv, restore, main, took_all, configure,
}
use clpsz_demos.Uart.Block.{read_bytes}

abbrev text : Bytes
text = codes "hello worl"

-- After init_serial, and after uart_send has taken all or not.
abbrev opened : Tty → ℕ → Demo → Demo
opened k fd w = record w {
  serial_fd = some fd;
  fds = fd ∷ w.fds;
  init_options = w.attributes;
  attributes = configure k.masks w.attributes;
  input_flushes = suc w.input_flushes;
}

abbrev sent : Bool → Tty → ℕ → Demo → Demo
sent true k fd w = record (opened k fd w) { written = w.written ++ text ∷ [] }
sent false k fd w = record (opened k fd w) {
  written = w.written ++ text ∷ [];
  output_flushes = suc w.output_flushes;
}

init_serial_lem :
    (k : Tty) (w : Demo) (fd : ℕ)
    → k.open_device device ≡ some fd
    → init_serial k w ≡ (some 0, opened k fd w)
unfolding init_serial
init_serial_lem k w fd opens = rw (init_serial, opens)

main_lem :
    (k : Tty) (w : Demo) (fd : ℕ) (b : Bool)
    → k.open_device device ≡ some fd
    → took_all k (some fd) text 10 ≡ b
    → main k w ≡ some (restore k (some fd) (sent b k fd w))
unfolding main uart_send uart_recv read_bytes
main_lem k w fd true opens took = rw (init_serial_lem k w fd opens, took)
main_lem k w fd false opens took = rw (init_serial_lem k w fd opens, took)

-- When the device opens, whatever write, select and read answer, main returns, the terminal has
-- the attributes from before, and the descriptor is closed.
pub main_restores :
    (k : Tty) (w : Demo) (fd : ℕ)
    → k.open_device device ≡ some fd
    → is_open fd w.fds ≡ false
    → (v : Demo) × (main k w ≡ some v) × (v.attributes ≡ w.attributes) × (v.fds ≡ w.fds)
unfolding restore
main_restores k w fd opens new = elim (Bool-cases (took_all k (some fd) text 10)) [
  | inl all ↦ (
    restore k (some fd) (sent true k fd w),
    main_lem k w fd true opens all,
    refl,
    close_fd-opened fd w.fds new,
  )
  | inr cut ↦ (
    restore k (some fd) (sent false k fd w),
    main_lem k w fd false opens cut,
    refl,
    close_fd-opened fd w.fds new,
  )
]

-- When the device does not open, main goes on with the descriptor -1, and FD_SET is undefined.
main_without_device : (k : Tty) (w : Demo) → k.open_device device ≡ none → main k w ≡ none
unfolding main init_serial uart_send uart_recv read_bytes took_all
main_without_device k w lacks =
    let fails : init_serial k w ≡ (none, record w { serial_fd = none }) = rw (init_serial, lacks) in
    rw fails
