-- ===== src/Uart/Command/Handlers.antt =====
-- What the handlers of ser_handler.c leave behind.
use clpsz_demos.Base.{
  ℕ, suc, ◌+◌, ◌≤◌, ◌≡◌, ◌≢◌, refl, ◌∙◌, ◌⊎◌, inl, inr, none, some, [], ◌∷◌, ◌++◌, append_assoc,
  arith, ≢→==, length, length-append, length-drop, drop, Bytes, u8, u32, codes,
}
use clpsz_demos.Uart.Block.{write_bytes, read_bytes, write_bytes_front}
use clpsz_demos.Uart.Packet.{err_ok, err_nomem, pkt_data_size}
use clpsz_demos.Uart.State.{Ptr, null, Heap, find_block, Host, Serial, store}
use clpsz_demos.Uart.State.Laws.{
  with_heap, Got, malloc-cases, store_lem, load_lem, find_block_below, ne_of_find,
}
use clpsz_demos.Uart.Command.{
  Func, discover, send_05, echo_back, notimplement, answer_text, run_func,
}

-- The data that each handler answers, as ser_handler.c intends it.
unfoldable pub answer_of : Func → Bytes → Bytes
answer_of discover payload = codes "discover"
answer_of send_05 payload = 5 ∷ []
answer_of echo_back payload = payload
answer_of notimplement payload = codes "notimplement"

-- The two writes that fill a PKT_DATA: len, and the data behind it.
module _ (w : Serial) (p : Ptr) {h : Heap} (fresh : find_block p h ≡ none) where
  store_len :
      (l : ℕ) {n : ℕ} (b : Bytes)
      → length b ≡ suc n
      → store p 0 (l ∷ []) (with_heap ((p, b) ∷ h) w)
        ≡ some (tt, with_heap ((p, l ∷ drop 1 b) ∷ h) w)
  unfolding write_bytes
  store_len l [] size = absurd (omega arith)
  store_len l (x ∷ b) size = store_lem (with_heap ((p, x ∷ b) ∷ h) w) p fresh 0 (l ∷ []) refl refl

  store_data :
      (l : ℕ) (xs b : Bytes)
      → length xs ≤ length b
      → store p 1 xs (with_heap ((p, l ∷ b) ∷ h) w)
        ≡ some (tt, with_heap ((p, l ∷ xs ++ drop (length xs) b) ∷ h) w)
  unfolding write_bytes
  store_data l xs b size =
      store_lem (with_heap ((p, l ∷ b) ∷ h) w) p fresh 1 xs refl (rw (write_bytes_front xs b size))

length-drop_one : (b : Bytes) {n : ℕ} → length b ≡ suc n → length (drop 1 b) ≡ n
length-drop_one [] h = absurd (omega arith)
length-drop_one (x ∷ b) h = omega arith

-- The size of the block that a handler asks for.
unfoldable pub room_of : Func → Bytes → ℕ
room_of discover xs = 21
room_of send_05 xs = 2
room_of echo_back xs = suc (length xs)
room_of notimplement xs = 21

-- A handler that had memory: on top of the heap lies a PKT_DATA with the answer.
pub record Answered (host : Host) (f : Func) (pkt : Ptr) (payload : Bytes) (w : Serial)
    : Type 0 where
  pub at : Ptr
  pub more : Bytes
  pub ne_null : at ≢ null
  pub fresh : find_block at w.heap ≡ none
  pub size : length (length (answer_of f payload) ∷ answer_of f payload ++ more) ≡ room_of f payload
  pub result :
      run_func host f (pkt, 6) (length payload) w
      ≡ some (
        (err_ok, at),
        with_heap ((at, length (answer_of f payload) ∷ answer_of f payload ++ more) ∷ w.heap) w,
      )

-- A handler that had none answers an error and nothing else.
pub record Failed (host : Host) (f : Func) (pkt : Ptr) (payload : Bytes) (w : Serial) : Type 0 where
  pub no_memory : host.malloc w.heap (room_of f payload) ≡ none
  pub result : run_func host f (pkt, 6) (length payload) w ≡ some ((err_nomem, null), w)

answer_text_lem :
    (host : Host) (text : Bytes) (w : Serial)
    → length text ≤ 19
    → (got : Got host 21 w)
    → answer_text host text w
      ≡ some (
        (err_ok, got.at),
        with_heap
            ((
              got.at,
              length text ∷ (text ++ 0 ∷ []) ++ drop (length (text ++ 0 ∷ [])) (drop 1 got.block),
            )
              ∷ w.heap)
            w,
      )
unfolding answer_text
answer_text_lem host text w small got = rw (
  got.result,
  ≢→== got.at null got.ne_null,
  store_len w got.at got.fresh (length text) got.block got.size,
  store_data w got.at got.fresh (length text) (text ++ 0 ∷ []) (drop 1 got.block)
      (omega (arith, length-append text (0 ∷ []), length-drop_one got.block got.size)),
)

-- The two outcomes of a handler that answers a text.
module _ (host : Host) (f : Func) (pkt : Ptr) (payload : Bytes) (w : Serial) where
  Answered-text :
      (text : Bytes)
      → length text ≤ 19
      → answer_of f payload ≡ text
      → room_of f payload ≡ 21
      → run_func host f (pkt, 6) (length payload) w ≡ answer_text host text w
      → Failed host f pkt payload w ⊎ Answered host f pkt payload w
  unfolding answer_text
  Answered-text text small is room runs = elim (malloc-cases host 21 w) [
    | inl lack ↦ inl (record { no_memory = rw room lack.no_memory; result = runs ∙ rw lack.result })
    | inr got ↦
        let behind = drop (length (text ++ 0 ∷ [])) (drop 1 got.block) in
        inr (record {
          at = got.at;
          more = 0 ∷ behind;
          ne_null = got.ne_null;
          fresh = got.fresh;
          size =
              rw (is, room)
                (omega (
                  arith,
                  length-append text (0 ∷ behind),
                  length-append text (0 ∷ []),
                  length-drop (length (text ++ 0 ∷ [])) (drop 1 got.block),
                  length-drop_one got.block got.size,
                ));
          result = rw is (
              runs
              ∙ answer_text_lem host text w small got
              ∙ rw (append_assoc text (0 ∷ []) behind));
        })
  ]

-- Every handler, on a payload that a packet can carry, either answers or finds no memory.
pub run_func-cases :
    (host : Host) (f : Func) (pkt : Ptr) (payload : Bytes) {block : Bytes} (w : Serial)
    → find_block pkt w.heap ≡ some block
    → read_bytes 6 (length payload) block ≡ some payload
    → length payload ≤ 249
    → Failed host f pkt payload w ⊎ Answered host f pkt payload w
unfolding run_func answer_of room_of
run_func-cases host discover pkt payload w found reads small =
    Answered-text host discover pkt payload w (codes "discover") (omega arith) refl refl refl
run_func-cases host notimplement pkt payload w found reads small =
    Answered-text host notimplement pkt payload w (codes "notimplement") (omega arith) refl refl
      refl
run_func-cases host send_05 pkt payload w found reads small = elim (malloc-cases host 2 w) [
  | inl lack ↦ inl (record { no_memory = lack.no_memory; result = rw lack.result })
  | inr got ↦ inr (record {
    at = got.at;
    more = drop 1 (drop 1 got.block);
    ne_null = got.ne_null;
    fresh = got.fresh;
    size = omega (arith, length-drop 1 (drop 1 got.block), length-drop_one got.block got.size);
    result = rw (
      got.result,
      ≢→== got.at null got.ne_null,
      store_len w got.at got.fresh 1 got.block got.size,
      store_data w got.at got.fresh 1 (5 ∷ []) (drop 1 got.block)
          (omega (arith, length-drop_one got.block got.size)),
    );
  })
]
run_func-cases host echo_back pkt payload w found reads small =
    let words : u32 (pkt_data_size + length payload) ≡ suc (length payload) = omega arith in
    let byte : u8 (length payload) ≡ length payload = omega arith in
    elim (malloc-cases host (suc (length payload)) w) [
      | inl lack ↦ inl (record { no_memory = lack.no_memory; result = rw (words, lack.result) })
      | inr got ↦
          let behind = drop 1 got.block in
          let filled = with_heap ((got.at, length payload ∷ behind) ∷ w.heap) w in
          let other =
            find_block_below pkt got.at (length payload ∷ behind) w.heap
              (ne_of_find pkt got.at w.heap found got.fresh)
            ∙ found in
          inr (record {
            at = got.at;
            more = drop (length payload) behind;
            ne_null = got.ne_null;
            fresh = got.fresh;
            size = omega (
              arith,
              length-append payload (drop (length payload) behind),
              length-drop (length payload) behind,
              length-drop_one got.block got.size,
            );
            result = rw (
              words,
              byte,
              got.result,
              ≢→== got.at null got.ne_null,
              store_len w got.at got.fresh (length payload) got.block got.size,
              load_lem filled pkt other 6 (length payload) reads,
              store_data w got.at got.fresh (length payload) payload behind
                  (omega (arith, length-drop_one got.block got.size)),
            );
          })
    ]
