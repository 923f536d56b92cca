-- ===== src/Uart/Sample.antt =====
-- A host whose malloc always succeeds, and the state before the first byte.
use clpsz_demos.Base.{
  ℕ, zero, suc, ◌+◌, ◌<◌, ◌≡◌, ◌≢◌, refl, Option, none, some, [], ◌∷◌, arith, length, Bytes,
  AreBytes, ltb, if◌then◌else◌, Bool-cases, inl, inr,
}
use clpsz_demos.Uart.State.{Ptr, Heap, Host, Serial, find_block}
use clpsz_demos.Uart.Receive.Sessions.{Plenty}

-- A malloc that always succeeds, with the block behind all others, filled with zeros.
unfoldable pub top : Heap → ℕ
top [] = 0
top ((p, b) ∷ h) = p + top h

unfoldable pub zeros : ℕ → Bytes
zeros zero = []
zeros (suc n) = 0 ∷ zeros n

zeros_bytes : (n : ℕ) → (length (zeros n) ≡ n) × AreBytes (zeros n)
unfolding zeros
zeros_bytes zero = (refl, tt)
zeros_bytes (suc n) = (omega (arith, zeros_bytes n), (omega arith, (zeros_bytes n).1))

find_block-above : (h : Heap) (p : Ptr) → top h < p → find_block p h ≡ none
unfolding find_block top
find_block-above [] p above = refl
find_block-above ((q, b) ∷ h) p above = ground (arith, find_block-above h p)

unfoldable pub plain_malloc : Heap → ℕ → Option (Ptr × Bytes)
plain_malloc h n = some (1 + top h, zeros n)

pub plain_malloc_fresh :
    (h : Heap) (n : ℕ) (p : Ptr) (b : Bytes)
    → plain_malloc h n ≡ some (p, b)
    → (p ≢ 0) × (find_block p h ≡ none) × (length b ≡ n) × AreBytes b
unfolding plain_malloc
plain_malloc_fresh h n p b e =
    let place : p ≡ 1 + top h = ground arith in
    let content : b ≡ zeros n = ground arith in
    (
      omega arith,
      find_block-above h p (omega arith),
      rw content (zeros_bytes n).0,
      rw content (zeros_bytes n).1,
    )

abbrev pub plain : Host
plain = record { malloc = plain_malloc; malloc_fresh = plain_malloc_fresh; write = λ xs. length xs }

abbrev pub start : Serial
start = record {
  heap = [];
  send_sn = 0;
  timeout = 100;
  rcv = record { head = 0 ∷ 0 ∷ 0 ∷ 0 ∷ []; buf = 0; pkt_len = 0; i = 0 };
  replied = 0;
  replied_pkt = 0;
  wire = [];
  flushes = 0;
  console = [];
}

pub plain-Plenty : Plenty plain
unfolding plain_malloc
plain-Plenty h n e = cc

-- A malloc that has no block of nine bytes or more.
unfoldable pub small_malloc : Heap → ℕ → Option (Ptr × Bytes)
small_malloc h n = if ltb n 9 then plain_malloc h n else none

pub small_malloc_fresh :
    (h : Heap) (n : ℕ) (p : Ptr) (b : Bytes)
    → small_malloc h n ≡ some (p, b)
    → (p ≢ 0) × (find_block p h ≡ none) × (length b ≡ n) × AreBytes b
unfolding small_malloc
small_malloc_fresh h n p b e = elim (Bool-cases (ltb n 9)) [
  | inl small ↦ plain_malloc_fresh h n p b (rw small at e)
  | inr large ↦
      let no : ◌≡◌ {A = Option (Ptr × Bytes)} none (some (p, b)) = rw large at e in
      absurd (ground arith)
]

abbrev pub small : Host
small = record { malloc = small_malloc; malloc_fresh = small_malloc_fresh; write = λ xs. 0 }
