-- ===== src/Uart/State.antt =====
-- The memory and the static variables of the protocol, and the calls of ser_hal.c on them.
-- A computation that C leaves undefined (an access out of bounds, a call of NULL) is `none`.
pub mod Laws
use clpsz_demos.Base.{
  ℕ, ◌+◌, ◌≡◌, ◌≢◌, Option, none, some, List, [], ◌∷◌, ◌++◌, ◌==◌, if◌then◌else◌, length, Bytes,
  AreBytes, get_elem?, drop,
}
use clpsz_demos.Debug.{dump}
use clpsz_demos.Uart.Block.{write_bytes, read_bytes}

abbrev pub Ptr : Type 0
Ptr = ℕ

abbrev pub null : Ptr
null = 0

-- The allocated blocks.
abbrev pub Heap : Type 0
Heap = List (Ptr × Bytes)

unfoldable pub find_block : Ptr → Heap → Option Bytes
find_block p [] = none
find_block p ((q, b) ∷ h) = if q == p then some b else find_block p h

unfoldable pub remove_block : Ptr → Heap → Heap
remove_block p [] = []
remove_block p ((q, b) ∷ h) = let rest = remove_block p h in if q == p then rest else (q, b) ∷ rest

unfoldable pub put_block : Ptr → Bytes → Heap → Heap
put_block p b [] = []
put_block p b ((q, c) ∷ h) =
    let rest = put_block p b h in (if q == p then (q, b) else (q, c)) ∷ rest

-- What the C library and the kernel decide: whether malloc succeeds, where the block lies and
-- what it holds; and what write(2) returns for a buffer, read as an unsigned number.
pub record Host : Type 0 where
  pub malloc : Heap → ℕ → Option (Ptr × Bytes)
  -- A block that malloc returns is not NULL, is not in use, has the size and holds bytes.
  pub malloc_fresh :
      (h : Heap) (n : ℕ) (p : Ptr) (b : Bytes)
      → malloc h n ≡ some (p, b)
      → (p ≢ null) × (find_block p h ≡ none) × (length b ≡ n) × AreBytes b
  pub write : Bytes → ℕ

-- The static variables of ser_cmd_rcv.
pub record Receiver : Type 0 where
  pub head : Bytes
  pub buf : Ptr
  pub pkt_len : ℕ
  pub i : ℕ

-- The heap, the static variables of ser_cmd.c and ser_hal.c, the buffers that were given to
-- write(2), the number of tcflush calls, and what was printed.
pub record Serial : Type 0 where
  pub heap : Heap
  pub send_sn : ℕ
  pub timeout : ℕ
  pub rcv : Receiver
  pub replied : ℕ
  pub replied_pkt : Ptr
  pub wire : List Bytes
  pub flushes : ℕ
  pub console : Bytes

abbrev pub M : Type 0 → Type 0
M A = Serial → Option (A × Serial)

abbrev pub pure : {A : Type 0} → A → M A
pure a w = some (a, w)

-- A step that may have failed, and what follows it.
abbrev pub and_then : {A B : Type 0} → Option A → (A → Option B) → Option B
and_then none f = none
and_then (some a) f = f a

module _ {A B : Type 0} where
  infixl 5 ◌>>=◌ ◌>>◌
  abbrev pub ◌>>=◌ : M A → (A → M B) → M B
  m >>= f = λ w. and_then (m w) (λ (a, w'). f a w')

  abbrev pub ◌>>◌ : M A → M B → M B
  m >> n = m >>= λ _. n

-- A result without state.
abbrev pub lift : {A : Type 0} → Option A → M A
lift o w = and_then o (λ a. some (a, w))

-- The whole block at `p`.
unfoldable pub load_block : Ptr → M Bytes
load_block p w = and_then (find_block p w.heap) (λ b. some (b, w))

unfoldable pub store_block : Ptr → Bytes → M (Unit {0})
store_block p b w = some (tt, record w { heap = put_block p b w.heap })

unfoldable pub load : (p : Ptr) (off n : ℕ) → M Bytes
load p off n = do b ← load_block p; lift (read_bytes off n b)

unfoldable pub load_u8 : (p : Ptr) (off : ℕ) → M ℕ
load_u8 p off = do b ← load_block p; lift (get_elem? b off)

unfoldable pub store : (p : Ptr) (off : ℕ) → Bytes → M (Unit {0})
store p off xs = do b ← load_block p; b' ← lift (write_bytes off xs b); store_block p b'

-- The outcome of malloc in a state.
abbrev pub allocated : Option (Ptr × Bytes) → M Ptr
allocated none w = some (null, w)
allocated (some (p, b)) w = some (p, record w { heap = (p, b) ∷ w.heap })

unfoldable pub ser_hal_malloc : Host → ℕ → M Ptr
ser_hal_malloc host n w = allocated (host.malloc w.heap n) w

-- free: a fault at a pointer that is not allocated, nothing at NULL.
unfoldable pub ser_hal_free : Ptr → M (Unit {0})
ser_hal_free p w =
    if p == null
    then some (tt, w)
    else and_then (find_block p w.heap) (λ _. some (tt, record w { heap = remove_block p w.heap }))

-- A write that is cut short flushes the output queue.
unfoldable pub ser_hal_write : Host → (buf : Ptr) (len : ℕ) → M (Unit {0})
ser_hal_write host buf len = do
  xs ← load buf 0 len
  λ w. some (
    tt,
    record w {
      wire = w.wire ++ xs ∷ [];
      flushes = if host.write xs == len then w.flushes else w.flushes + 1;
    },
  )

-- The _dump macro on a packet, less the file and the line that it prints first.
unfoldable pub dump_pkt : Ptr → M (Unit {0})
dump_pkt p = do
  len ← load_u8 p 2
  xs ← load p 0 len
  λ w. some (tt, record w { console = w.console ++ dump xs })

-- printf of a text.
unfoldable pub print : Bytes → M (Unit {0})
print text w = some (tt, record w { console = w.console ++ text })

-- What can be read at `pkt_data`, a pointer into a block, or NULL.
unfoldable pub source_of : Option (Ptr × ℕ) → M (Option Bytes)
source_of none = pure none
source_of (some (p, off)) = do b ← load_block p; pure (some (drop off b))
