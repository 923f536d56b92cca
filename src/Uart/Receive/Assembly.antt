-- ===== src/Uart/Receive/Assembly.antt =====
-- How ser_cmd_rcv assembles a packet: the head, the length, and the bytes behind it.
use clpsz_demos.Base.{
  ℕ, ◌+◌, ◌≤◌, ◌<◌, ◌≡◌, refl, ◌∙◌, none, some, [], ◌∷◌, ◌++◌, append_assoc, append-nil, arith,
  ≡→==, ≢→==, lt→leb, length, length-append, drop, Bytes, u8,
}
use clpsz_demos.Uart.Block.{write_bytes}
use clpsz_demos.Uart.State.{find_block, Host, Receiver, Serial, store}
use clpsz_demos.Uart.State.Laws.{store_lem}
use clpsz_demos.Uart.Receive.{ser_cmd_rcv, rcv_byte, rcv_body, end_packet}

-- Between two packets: the next byte is taken for the first of a head.
pub record IsIdle (r : Receiver) : Type 0 where
  pub at_start : r.i ≡ 0
  pub head_size : length r.head ≡ 4

-- The statics inside a packet of length `n` of which `k` bytes have come.
abbrev pub inside : (p n d k : ℕ) → Receiver
inside p n d k = record { head = 0x40 ∷ 0x3e ∷ n ∷ d ∷ []; buf = p; pkt_len = n; i = k }

-- The state then, where `xs` has come and `more` is what the rest of the block held before.
abbrev pub collecting : Serial → (p n d : ℕ) → (xs more : Bytes) → Serial
collecting w p n d xs more = record w {
  heap = (p, xs ++ more) ∷ w.heap;
  rcv = inside p n d (length xs);
}

write_bytes-at :
    (xs : Bytes) (y m : ℕ) (more : Bytes)
    → write_bytes (length xs) (y ∷ []) (xs ++ m ∷ more) ≡ some (xs ++ y ∷ more)
unfolding write_bytes
write_bytes-at [] y m more = refl
write_bytes-at (x ∷ xs) y m more = rw (write_bytes-at xs y m more)

module _ (host : Host) (w : Serial) (p n d : ℕ) (fresh : find_block p w.heap ≡ none)
    (small : n < 256) where
  -- The write of one byte behind the head.
  store-at :
      (xs : Bytes) (y m : ℕ) (more : Bytes)
      → store p (length xs) (y ∷ []) (collecting w p n d xs (m ∷ more))
        ≡ some
            (tt, record w { heap = (p, xs ++ y ∷ more) ∷ w.heap; rcv = inside p n d (length xs) })
  store-at xs y m more =
      store_lem (collecting w p n d xs (m ∷ more)) p fresh (length xs) (y ∷ []) refl
        (write_bytes-at xs y m more)

  pub collect_byte :
      (xs : Bytes) (y m : ℕ) (more : Bytes)
      → 3 ≤ length xs
      → length xs + 1 < n
      → rcv_byte host y (collecting w p n d xs (m ∷ more))
        ≡ some (tt, collecting w p n d (xs ++ y ∷ []) more)
  unfolding rcv_byte rcv_body
  collect_byte xs y m more began room =
      let next : u8 (length xs + 1) ≡ length (xs ++ y ∷ []) =
        omega (arith, length-append xs (y ∷ [])) in
      rw (
        lt→leb (length xs) 2 began,
        store-at xs y m more,
        ≢→== (length xs + 1) n (omega arith),
        next,
        append_assoc xs (y ∷ []) more,
      )

  -- All bytes but the last.
  pub collect :
      (ys xs more rest : Bytes)
      → 3 ≤ length xs
      → length xs + length ys < n
      → length xs + length more ≡ n
      → ser_cmd_rcv host (ys ++ rest) (collecting w p n d xs more)
        ≡ ser_cmd_rcv host rest (collecting w p n d (xs ++ ys) (drop (length ys) more))
  unfolding ser_cmd_rcv
  collect [] xs more rest began room whole = rw (append-nil xs)
  collect (y ∷ ys) xs [] rest began room whole = absurd (omega arith)
  collect (y ∷ ys) xs (m ∷ more) rest began room whole =
      let grown = length-append xs (y ∷ []) in
      rw (collect_byte xs y m more began (omega arith)) (
        collect ys (xs ++ y ∷ []) more rest (omega (arith, grown)) (omega (arith, grown))
          (omega (arith, grown))
        ∙ rw (append_assoc xs (y ∷ []) ys))

  -- The last byte completes the block, and the packet is checked.
  pub last_byte :
      (xs : Bytes) (y m : ℕ)
      → 3 ≤ length xs
      → length xs + 1 ≡ n
      → rcv_byte host y (collecting w p n d xs (m ∷ []))
        ≡ end_packet host
            (record w { heap = (p, xs ++ y ∷ []) ∷ w.heap; rcv = inside p n d (length xs) })
  unfolding rcv_byte rcv_body
  last_byte xs y m began ends =
      rw (lt→leb (length xs) 2 began, store-at xs y m [], ≡→== (length xs + 1) n ends)
