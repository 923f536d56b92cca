-- ===== src/Uart/Send.antt =====
-- ser_cmd_send of ser_cmd.c, and ser_hal_rcvreply, which waits for the receiving thread.
pub mod Exchange
pub mod Waiting
use clpsz_demos.Base.{
  ℕ, ◌+◌, Bool, true, false, Option, none, some, List, [], ◌∷◌, ◌==◌, if◌then◌else◌, drop, u8, u32,
  Bytes,
}
use clpsz_demos.Uart.Packet.{ErrCode, err_ok, err_nomem, code, pkt_size, build_pkt}
use clpsz_demos.Uart.State.{
  Ptr, null, Host, Serial, source_of, M, pure, ◌>>=◌, ◌>>◌, lift, load_block, store_block, load_u8,
  ser_hal_malloc, ser_hal_free, ser_hal_write, dump_pkt,
}
use clpsz_demos.Uart.Receive.{ser_cmd_rcv}

-- What the caller sees: `*reply`, where it asked for the reply and it came.
pub data Reply : Type 0 where
  unset : Reply
  set_to : Ptr → Reply

-- `if (pkt == NULL)`: the caller that does not care has the reply freed.
unfoldable pub keep_reply : (want : Bool) → M Reply
keep_reply false = do p ← λ w. pure w.replied_pkt w; ser_hal_free p; pure unset
keep_reply true = λ w. pure (set_to w.replied_pkt) w

-- The end of the wait: `replied` is set.
unfoldable pub take_reply : (want : Bool) → M Reply
take_reply want = do
  λ w. some (tt, record w { replied = 0 })
  λ w. dump_pkt w.replied_pkt w
  keep_reply want

-- ser_hal_rcvreply. Neither `sn` nor `timeout` is looked at. `slices` is what the line delivers
-- to the receiving thread in each 100 ms of sleep; `some none` is a wait that has not ended.
unfoldable pub ser_hal_rcvreply :
    Host → (want : Bool) (sn timeout : ℕ) (slices : List Bytes) → M (Option Reply)
ser_hal_rcvreply host want sn timeout [] w =
    (if w.replied == 0 then pure none else do r ← take_reply want; pure (some r)) w
ser_hal_rcvreply host want sn timeout (slice ∷ slices) w =
    let wait = (do ser_cmd_rcv host slice; ser_hal_rcvreply host want sn timeout slices) w in
    if w.replied == 0 then wait else (do r ← take_reply want; pure (some r)) w

-- `ret_res` is assigned only where ser_hal_rcvreply fails, which it never does: after a reply,
-- ser_cmd_send returns what the stack held, `ret_res` here. An unfinished wait returns nothing.
unfoldable pub return_of : (ret_res : ℕ) (pkt : Ptr) → Option Reply → M (Option (ℕ × Reply))
return_of ret_res pkt none = pure none
return_of ret_res pkt (some r) = do ser_hal_free pkt; pure (some (ret_res, r))

unfoldable pub ser_cmd_send :
    Host
    → (ret_res : ℕ) (cmd : ℕ) (pkt_data : Option (Ptr × ℕ)) (len : ℕ) (want : Bool)
    → (slices : List Bytes) → M (Option (ℕ × Reply))
ser_cmd_send host ret_res cmd pkt_data len want slices = do
  pkt ← ser_hal_malloc host (u32 (pkt_size + len))
  if pkt == null then pure (some (code err_nomem, unset)) else do
    source ← source_of pkt_data
    block ← load_block pkt
    sn ← λ w. pure w.send_sn w
    built ← lift (build_pkt cmd sn block source len)
    store_block pkt built
    λ w. some (tt, record w { send_sn = u8 (w.send_sn + 1) })
    ser_hal_write host pkt (u32 (pkt_size + len))
    timeout ← λ w. pure w.timeout w
    sent_sn ← load_u8 pkt 4
    got ← ser_hal_rcvreply host want sent_sn timeout slices
    return_of ret_res pkt got

unfoldable pub ser_cmd_settimeout : ℕ → M (Unit {0})
ser_cmd_settimeout timeout w = some (tt, record w { timeout = timeout })
