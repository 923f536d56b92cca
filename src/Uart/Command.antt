-- ===== src/Uart/Command.antt =====
-- The command side of ser_cmd.c and the handlers of ser_handler.c.
pub mod Deal
pub mod Handlers
pub mod Reply
use clpsz_demos.Base.{
  ℕ, ◌+◌, ◌-◌, ◌%◌, ◌^◌, bit_or, Bool, true, false, ◌&&◌, Option, none, some, List, [], ◌∷◌, ◌++◌,
  ◌==◌, if◌then◌else◌, get_elem?, drop, u8, u32, Bytes, codes, length,
}
use mathlib.Core.Option.{get_or}
use clpsz_demos.Uart.Packet.{
  ErrCode, err_ok, err_err, err_nomem, code, hdr_len, pkt_size, pkt_data_size, reply_mask,
  build_pkt,
}
use clpsz_demos.Uart.State.{
  Ptr, null, Host, M, source_of, pure, ◌>>=◌, ◌>>◌, lift, load_block, store_block, load, load_u8,
  store, ser_hal_malloc, ser_hal_free, ser_hal_write, dump_pkt, print,
}

-- The functions that the handler table names.
pub data Func : Type 0 where
  discover send_05 echo_back notimplement : Func

pub record CmdFun : Type 0 where
  pub cmd : ℕ
  pub func : Option Func

abbrev pub entry : ℕ → Option Func → CmdFun
entry c f = record { cmd = c; func = f }

-- ser_rcvcmd_funcs, with its terminator.
abbrev pub ser_rcvcmd_funcs : List CmdFun
ser_rcvcmd_funcs =
    entry 0x01 (some discover)
    ∷ entry 0x02 (some send_05)
    ∷ entry 0x61 (some echo_back)
    ∷ entry 0x7f (some notimplement)
    ∷ entry 0x00 none
    ∷ []

abbrev pub cmd_np_index : ℕ
cmd_np_index = length ser_rcvcmd_funcs - 2

abbrev pub is_null : Option Func → Bool
is_null none = true
is_null (some f) = false

-- The loop of _find_handler from index `i`: `some none` is its -1; `none` is a read past the table.
unfoldable pub find_loop : List CmdFun → (cmd i : ℕ) → Option (Option ℕ)
find_loop [] cmd i = none
find_loop (e ∷ map) cmd i =
    let rest = find_loop map cmd (i + 1) in
    if e.cmd == cmd then some (some i) else if e.cmd == 0 && is_null e.func then some none else rest

unfoldable pub find_handler : List CmdFun → ℕ → Option (Option ℕ)
find_handler map cmd = find_loop map cmd 0

-- What a handler that answers `text` does: PKT_DATA is len and then the text, which strcpy ends
-- with a 0.
unfoldable pub answer_text : Host → Bytes → M (ErrCode × Ptr)
answer_text host text = do
  p ← ser_hal_malloc host (pkt_data_size + 20)
  if p == null
      then pure (err_nomem, null)
      else do store p 0 (length text ∷ []); store p 1 (text ++ 0 ∷ []); pure (err_ok, p)

-- The handlers. The result is the error code and what they leave in `*pkt`.
unfoldable pub run_func : Host → Func → (input : Ptr × ℕ) (len : ℕ) → M (ErrCode × Ptr)
run_func host discover input len = answer_text host (codes "discover")
run_func host notimplement input len = answer_text host (codes "notimplement")
run_func host send_05 input len = do
  p ← ser_hal_malloc host (pkt_data_size + 1)
  if p == null
      then pure (err_nomem, null)
      else do store p 0 (1 ∷ []); store p 1 (5 ∷ []); pure (err_ok, p)
run_func host echo_back (pkt, off) len = do
  p ← ser_hal_malloc host (u32 (pkt_data_size + len))
  if p == null
      then pure (err_nomem, null)
      else do store p 0 (u8 len ∷ []); xs ← load pkt off len; store p 1 xs; pure (err_ok, p)

unfoldable pub ser_cmd_reply :
    Host → (pkt : Ptr) (cmd : ℕ) (pkt_data : Option (Ptr × ℕ)) (len : ℕ) → M ErrCode
ser_cmd_reply host pkt cmd pkt_data len = if pkt == null then pure err_err else do
  new_pkt ← ser_hal_malloc host (u32 (pkt_size + len))
  if new_pkt == null then pure err_nomem else do
    sn ← load_u8 pkt 4
    source ← source_of pkt_data
    block ← load_block new_pkt
    built ← lift (build_pkt cmd sn block source len)
    store_block new_pkt built
    mac_len ← load_u8 new_pkt 2
    ser_hal_write host new_pkt mac_len
    ser_hal_free new_pkt
    pure err_ok

-- `if (data_out)` in ser_cmd_dealcmd.
unfoldable pub send_reply : Host → (pkt : Ptr) → ErrCode → (data_out : Ptr) → M ErrCode
send_reply host pkt res data_out =
    if data_out == null
    then ser_cmd_reply host pkt (u8 (bit_or (code res) reply_mask)) none 0
    else do
      len ← load_u8 data_out 0
      ser_cmd_reply host pkt (u8 (bit_or (code res) reply_mask)) (some (data_out, 1)) len

-- `data_out = NULL` where the handler failed, after debug_error.
unfoldable pub checked : ErrCode × Ptr → M Ptr
checked (err_ok, out) = pure out
checked (e, out) = do print (codes "error!"); pure null

-- The end of ser_cmd_dealcmd: `r` is what the handler returned.
unfoldable pub respond : Host → (pkt : Ptr) → (r : ErrCode × Ptr) → M ErrCode
respond host pkt r = do
  data_out ← checked r
  send_reply host pkt r.0 data_out
  ser_hal_free data_out
  pure err_ok

-- A packet to its handler, and the answer to the wire. PKT_DATALEN is unsigned.
unfoldable pub ser_cmd_dealcmd : Host → Ptr → M ErrCode
ser_cmd_dealcmd host pkt = if pkt == null then pure err_err else do
  dump_pkt pkt
  cmd ← load_u8 pkt 5
  found ← lift (find_handler ser_rcvcmd_funcs cmd)
  entry ← lift (get_elem? ser_rcvcmd_funcs (get_or found cmd_np_index))
  fun ← lift entry.func
  len ← load_u8 pkt 2
  r ← run_func host fun (pkt, 6) (u32 (len + 2 ^ 32 - hdr_len))
  respond host pkt r
