-- ===== src/Uart/Main/Loop.antt =====
-- What main.c of linux/uart_communicate_protocol does as the sending device, once the options
-- are read: its endless loop, as the rounds that it has gone through.
use clpsz_demos.Base.{ℕ, false, Option, none, some, List, ◌∷◌, Bytes}
use clpsz_demos.Uart.State.{Ptr, Host, remove_block, M, pure, ◌>>=◌, ◌>>◌, lift}
use clpsz_demos.Uart.Send.{ser_cmd_send}
use clpsz_demos.Uart.Main.{fill_buf}

-- What a call of _send_10 finds on its stack: the array, and what ret_res of ser_cmd_send holds.
pub record Stack : Type 0 where
  pub array : Bytes
  pub ret_res : ℕ

-- The end of ser_cmd_send's caller: `none` is a wait that has not ended.
abbrev pub goes_on : {A : Type 0} → Option A → Option (Unit {0})
goes_on none = none
goes_on (some a) = some tt

-- _send_10. The array is a block at `frame` that is there as long as the call runs. `slices` are
-- the bytes that come in while ser_cmd_send sleeps.
unfoldable pub send_10_now :
    Host → (frame : Ptr) → Stack → (slices : List Bytes) → M (Option (Unit {0}))
unfolding fill_buf ser_cmd_send
send_10_now host frame stack slices = do
  buf ← lift (fill_buf stack.array)
  λ w. some (tt, record w { heap = (frame, buf) ∷ w.heap })
  got ← ser_cmd_send host stack.ret_res 0x10 (some (frame, 0)) 16 false slices
  λ w. some (tt, record w { heap = remove_block frame w.heap })
  pure (goes_on got)
