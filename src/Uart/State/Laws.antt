-- ===== src/Uart/State/Laws.antt =====
-- What the operations of the state do at a block that is on top of the heap, and elsewhere.
use clpsz_demos.Debug.{dump}
use clpsz_demos.Base.{
  ℕ, ◌+◌, ◌≡◌, ◌≢◌, refl, none, some, [], ◌∷◌, ◌++◌, arith, ◌==◌, ≡→==, ≢→==, ◌⊎◌, inl, inr,
  Option-cases, if◌then◌else◌, length, get_elem?, drop, Bytes,
}
use clpsz_demos.Uart.Block.{write_bytes, read_bytes, read_bytes_whole}
use clpsz_demos.Uart.State.{
  Ptr, null, Heap, find_block, remove_block, put_block, Host, Serial, load_block, store_block, load,
  load_u8, store, ser_hal_malloc, ser_hal_free, ser_hal_write, dump_pkt, source_of,
}

pub find_block-top : (p : Ptr) (b : Bytes) (h : Heap) → find_block p ((p, b) ∷ h) ≡ some b
unfolding find_block
find_block-top p b h = rw (≡→== p p refl)

pub find_block_below :
    (p q : Ptr) (b : Bytes) (h : Heap) → q ≢ p → find_block p ((q, b) ∷ h) ≡ find_block p h
unfolding find_block
find_block_below p q b h ne = rw (≢→== q p ne)

pub ne_of_find :
    (p q : Ptr) (h : Heap) {b : Bytes} → find_block p h ≡ some b → find_block q h ≡ none → q ≢ p
ne_of_find p q h found missing e = ground (arith, e)

remove_block_absent : (p : Ptr) (h : Heap) → find_block p h ≡ none → remove_block p h ≡ h
unfolding find_block remove_block
remove_block_absent p [] e = refl
remove_block_absent p ((q, b) ∷ h) e = ground (arith, remove_block_absent p h)

put_block_absent : (p : Ptr) (b : Bytes) (h : Heap) → find_block p h ≡ none → put_block p b h ≡ h
unfolding find_block put_block
put_block_absent p b [] e = refl
put_block_absent p b ((q, c) ∷ h) e = ground (arith, put_block_absent p b h)

pub remove_block-top :
    (p : Ptr) (b : Bytes) (h : Heap) → find_block p h ≡ none → remove_block p ((p, b) ∷ h) ≡ h
unfolding remove_block
remove_block-top p b h e = rw (≡→== p p refl) (remove_block_absent p h e)

pub put_block-top :
    (p : Ptr) (b c : Bytes) (h : Heap)
    → find_block p h ≡ none
    → put_block p c ((p, b) ∷ h) ≡ (p, c) ∷ h
unfolding put_block
put_block-top p b c h e = rw (≡→== p p refl, put_block_absent p c h e)

-- A block under another one is removed from under it.
pub remove_block-under :
    (p q : Ptr) (b c : Bytes) (h : Heap)
    → q ≢ p
    → find_block p h ≡ none
    → remove_block p ((q, c) ∷ (p, b) ∷ h) ≡ (q, c) ∷ h
unfolding remove_block
remove_block-under p q b c h ne fresh =
    rw (≢→== q p ne, ≡→== p p refl, remove_block_absent p h fresh)

-- The reads, where the block is known.
module _ (w : Serial) (p : Ptr) {b : Bytes} (found : find_block p w.heap ≡ some b) where
  pub load_block_lem : load_block p w ≡ some (b, w)
  unfolding load_block
  load_block_lem = rw found

  pub load_u8_lem : (off : ℕ) {x : ℕ} → get_elem? b off ≡ some x → load_u8 p off w ≡ some (x, w)
  unfolding load_u8
  load_u8_lem off e = rw (load_block_lem, e)

  pub load_lem :
      (off n : ℕ) {xs : Bytes} → read_bytes off n b ≡ some xs → load p off n w ≡ some (xs, w)
  unfolding load
  load_lem off n e = rw (load_block_lem, e)

  pub source_of_lem : (off : ℕ) → source_of (some (p, off)) w ≡ some (some (drop off b), w)
  unfolding source_of
  source_of_lem off = rw load_block_lem

-- A write to the block on top.
module _ (w : Serial) (p : Ptr) {b : Bytes} {h : Heap} (fresh : find_block p h ≡ none) where
  pub store_lem :
      (off : ℕ) (xs : Bytes) {c : Bytes}
      → w.heap ≡ (p, b) ∷ h
      → write_bytes off xs b ≡ some c
      → store p off xs w ≡ some (tt, record w { heap = (p, c) ∷ h })
  unfolding store load_block store_block
  store_lem off xs {c} on_top e = rw (on_top, find_block-top p b h, e, put_block-top p b c h fresh)

-- `w` with another heap, after a write to the line, and after a print.
abbrev pub with_heap : Heap → Serial → Serial
with_heap h w = record w { heap = h }

abbrev pub sent : Host → Bytes → Serial → Serial
sent host xs w = record w {
  wire = w.wire ++ xs ∷ [];
  flushes = if host.write xs == length xs then w.flushes else w.flushes + 1;
}

abbrev pub printed : Bytes → Serial → Serial
printed text w = record w { console = w.console ++ text }

-- A malloc that succeeded.
pub record Got (host : Host) (n : ℕ) (w : Serial) : Type 0 where
  pub at : Ptr
  pub block : Bytes
  pub result : ser_hal_malloc host n w ≡ some (at, with_heap ((at, block) ∷ w.heap) w)
  pub ne_null : at ≢ null
  pub fresh : find_block at w.heap ≡ none
  pub size : length block ≡ n

pub record Refused (host : Host) (n : ℕ) (w : Serial) : Type 0 where
  pub no_memory : host.malloc w.heap n ≡ none
  pub result : ser_hal_malloc host n w ≡ some (null, w)

module _ (host : Host) where
  pub malloc-cases : (n : ℕ) (w : Serial) → Refused host n w ⊎ Got host n w
  unfolding ser_hal_malloc
  malloc-cases n w = elim (Option-cases (host.malloc w.heap n)) [
    | inl e ↦ inl (record { no_memory = e; result = rw e })
    | inr ((p, b), e) ↦
        let (ne, fresh, size, _) = host.malloc_fresh w.heap n p b e in
        inr (record { at = p; block = b; result = rw e; ne_null = ne; fresh = fresh; size = size })
  ]

  pub ser_hal_write_lem :
      (w : Serial) (p : Ptr) (xs : Bytes)
      → find_block p w.heap ≡ some xs
      → ser_hal_write host p (length xs) w ≡ some (tt, sent host xs w)
  unfolding ser_hal_write
  ser_hal_write_lem w p xs found = rw (load_lem w p found 0 (length xs) (read_bytes_whole xs))

pub free-top :
    (w : Serial) (p : Ptr) {b : Bytes} {h : Heap}
    → p ≢ null
    → find_block p h ≡ none
    → w.heap ≡ (p, b) ∷ h
    → ser_hal_free p w ≡ some (tt, with_heap h w)
unfolding ser_hal_free
free-top w p {b} {h} ne fresh on_top =
    rw (≢→== p null ne, on_top, find_block-top p b h, remove_block-top p b h fresh)

pub free-null : (w : Serial) → ser_hal_free null w ≡ some (tt, w)
unfolding ser_hal_free
free-null w = refl

-- A packet whose len is its size is printed whole.
pub dump_pkt_lem :
    (w : Serial) (p : Ptr) {b : Bytes}
    → find_block p w.heap ≡ some b
    → get_elem? b 2 ≡ some (length b)
    → dump_pkt p w ≡ some (tt, printed (dump b) w)
unfolding dump_pkt
dump_pkt_lem w p {b} found sized =
    rw (load_u8_lem w p found 2 sized, load_lem w p found 0 (length b) (read_bytes_whole b))
