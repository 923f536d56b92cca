-- ===== src/Uart/Command/Reply.antt =====
-- ser_cmd_reply and ser_cmd_dealcmd: every command is answered by one packet, and the heap is
-- left as it was.
use clpsz_demos.Base.{
  ℕ, ◌+◌, ◌≤◌, ◌≡◌, ◌≢◌, refl, ◌∙◌, ◌⊎◌, inl, inr, Option, none, some, [], ◌∷◌, ◌++◌, arith, ◌==◌,
  ≢→==, Bool-cases, if◌then◌else◌, length, get_elem?, Bytes, u32,
}
use mathlib.Core.Option.{get_or}
use clpsz_demos.Uart.Packet.{ErrCode, err_ok, err_nomem, pkt_size, build_pkt}
use clpsz_demos.Uart.Packet.RoundTrip.{packet, sized-packet, build_pkt-packet, build_pkt_empty}
use clpsz_demos.Uart.State.{Ptr, null, find_block, Host, Serial, source_of, store_block}
use clpsz_demos.Uart.State.Laws.{
  with_heap, sent, malloc-cases, find_block-top, find_block_below, ne_of_find, put_block-top,
  load_u8_lem, load_block_lem, source_of_lem, free-top, ser_hal_write_lem,
}
use clpsz_demos.Uart.Command.{
  Func, discover, send_05, echo_back, notimplement, CmdFun, entry, ser_rcvcmd_funcs, cmd_np_index,
  find_handler, find_loop, ser_cmd_reply,
}

-- The two outcomes of ser_cmd_reply: there was no memory for a packet with `xs`, or it went out.
pub record Unsent (host : Host) (w : Serial) (xs : Bytes) (result : Option (ErrCode × Serial))
    : Type 0 where
  pub no_memory : host.malloc w.heap (6 + length xs) ≡ none
  pub nothing : result ≡ some (err_nomem, w)

module _ (host : Host) (pkt : Ptr) (cmd sn : ℕ) (xs : Bytes) (w : Serial) (given : pkt ≢ null)
    {b : Bytes} (found : find_block pkt w.heap ≡ some b) (has_sn : get_elem? b 4 ≡ some sn)
    (small : length xs ≤ 249) (src : Option (Ptr × ℕ)) (content : Option Bytes)
    (readable : (p : Ptr) (c : Bytes)
      → find_block p w.heap ≡ none
      → source_of src (with_heap ((p, c) ∷ w.heap) w)
        ≡ some (content, with_heap ((p, c) ∷ w.heap) w))
    (builds : (c : Bytes)
      → length c ≡ 6 + length xs
      → build_pkt cmd sn c content (length xs) ≡ some (packet cmd sn xs)) where
  ser_cmd_reply-cases :
      Unsent host w xs (ser_cmd_reply host pkt cmd src (length xs) w)
      ⊎ (ser_cmd_reply host pkt cmd src (length xs) w
          ≡ some (err_ok, sent host (packet cmd sn xs) w))
  unfolding ser_cmd_reply store_block
  ser_cmd_reply-cases =
      let size : u32 (pkt_size + length xs) ≡ 6 + length xs = omega arith in
      elim (malloc-cases host (6 + length xs) w) [
        | inl lack ↦ inl (record {
          no_memory = lack.no_memory;
          nothing = rw (≢→== pkt null given, size, lack.result);
        })
        | inr got ↦
            let built = packet cmd sn xs in
            let empty = with_heap ((got.at, got.block) ∷ w.heap) w in
            let full = with_heap ((got.at, built) ∷ w.heap) w in
            let other =
              find_block_below pkt got.at got.block w.heap
                (ne_of_find pkt got.at w.heap found got.fresh)
              ∙ found in
            let top = find_block-top got.at built w.heap in
            inr (
              rw (
                ≢→== pkt null given,
                size,
                got.result,
                ≢→== got.at null got.ne_null,
                load_u8_lem empty pkt other 4 has_sn,
                readable got.at got.block got.fresh,
                load_block_lem empty got.at (find_block-top got.at got.block w.heap),
                builds got.block got.size,
                put_block-top got.at got.block built w.heap got.fresh,
                load_u8_lem full got.at top 2 (sized-packet cmd sn xs),
                ser_hal_write_lem host full got.at built top,
                free-top (sent host built full) got.at {b = built} {h = w.heap} got.ne_null
                    got.fresh refl,
              ))
      ]

-- With no data.
pub reply_empty :
    (host : Host) (pkt : Ptr) (cmd sn : ℕ) (w : Serial) {b : Bytes}
    → pkt ≢ null
    → find_block pkt w.heap ≡ some b
    → get_elem? b 4 ≡ some sn
    → Unsent host w [] (ser_cmd_reply host pkt cmd none 0 w)
      ⊎ (ser_cmd_reply host pkt cmd none 0 w ≡ some (err_ok, sent host (packet cmd sn []) w))
unfolding source_of
reply_empty host pkt cmd sn w given found has_sn =
    ser_cmd_reply-cases host pkt cmd sn [] w given found has_sn (omega arith) none none
      (λ p c fresh. refl) (build_pkt_empty cmd sn)

-- With the data of a PKT_DATA.
pub reply_with :
    (host : Host) (pkt : Ptr) (cmd sn : ℕ) (q : Ptr) (l : ℕ) (xs more : Bytes) (w : Serial)
    {b : Bytes}
    → pkt ≢ null
    → find_block pkt w.heap ≡ some b
    → get_elem? b 4 ≡ some sn
    → length xs ≤ 249
    → find_block q w.heap ≡ some (l ∷ xs ++ more)
    → Unsent host w xs (ser_cmd_reply host pkt cmd (some (q, 1)) (length xs) w)
      ⊎ (ser_cmd_reply host pkt cmd (some (q, 1)) (length xs) w
          ≡ some (err_ok, sent host (packet cmd sn xs) w))
reply_with host pkt cmd sn q l xs more w given found has_sn small held =
    ser_cmd_reply-cases host pkt cmd sn xs w given found has_sn small (some (q, 1))
      (some (xs ++ more))
      (λ p c fresh.
        source_of_lem (with_heap ((p, c) ∷ w.heap) w) q
          (find_block_below q p c w.heap (ne_of_find q p w.heap held fresh) ∙ held) 1)
      (λ c size. build_pkt-packet cmd sn xs more c small size)

-- The handler that a command is for: the table's, or the one that says "notimplement".
unfoldable pub handler_of : ℕ → Func
handler_of c =
    if c == 1
    then discover
    else if c == 2
    then send_05
    else if c == 0x61
    then echo_back
    else notimplement

-- The search in the table finds that handler for every command but 0.
pub record Found (c : ℕ) : Type 0 where
  pub index : Option ℕ
  pub entry : CmdFun
  pub finds : find_handler ser_rcvcmd_funcs c ≡ some index
  pub at_index : get_elem? ser_rcvcmd_funcs (get_or index cmd_np_index) ≡ some entry
  pub calls : entry.func ≡ some (handler_of c)

pub find_handler-Found : (c : ℕ) → c ≢ 0 → Found c
unfolding find_handler find_loop handler_of
find_handler-Found c nz = elim (Bool-cases (c == 1)) [
  | inl one ↦ record {
    index = some 0;
    entry = entry 1 (some discover);
    finds = ground arith;
    at_index = refl;
    calls = ground arith;
  }
  | inr not_one ↦ elim (Bool-cases (c == 2)) [
    | inl two ↦ record {
      index = some 1;
      entry = entry 2 (some send_05);
      finds = ground arith;
      at_index = refl;
      calls = ground arith;
    }
    | inr not_two ↦ elim (Bool-cases (c == 0x61)) [
      | inl echo ↦ record {
        index = some 2;
        entry = entry 0x61 (some echo_back);
        finds = ground arith;
        at_index = refl;
        calls = ground arith;
      }
      | inr not_echo ↦ elim (Bool-cases (c == 0x7f)) [
        | inl last ↦ record {
          index = some 3;
          entry = entry 0x7f (some notimplement);
          finds = ground arith;
          at_index = refl;
          calls = ground arith;
        }
        | inr missing ↦ record {
          index = none;
          entry = entry 0x7f (some notimplement);
          finds = ground arith;
          at_index = refl;
          calls = ground arith;
        }
      ]
    ]
  ]
]
