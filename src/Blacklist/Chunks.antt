-- ===== src/Blacklist/Chunks.antt =====
-- What get_blacklist of linux/libcurl/blacklist.c leaves in the buffer.
use clpsz_demos.Base.{
  ℕ, suc, ◌*◌, ◌^◌, ◌-◌, ◌≤◌, ◌<◌, ◌≡◌, refl, sym, ap, ◌∙◌, Option, none, some, List, [], ◌∷◌, ◌++◌,
  Bytes, Bool, true, false, ltb, ◌==◌, if◌then◌else◌, length, take, drop, All, arith, min, inl, inr,
  Bool-cases, length-append, length-drop, length-take, take-min, lt→ltb, le→leb, lt→leb,
}
use clpsz_demos.Blacklist.{Request, cpy_size, write_callback, perform, get_blacklist, request}

cpy_size_lem :
    (buf_len size nmemb : ℕ)
    → 0 < buf_len
    → buf_len < 2 ^ 64
    → size * nmemb < 2 ^ 64
    → cpy_size buf_len size nmemb ≡ min (size * nmemb) (buf_len - 1)
unfolding cpy_size
cpy_size_lem buf_len size nmemb some_room fits small = ground arith

-- The buffer when a chunk was stored from its start: as much of it as leaves room for a NUL, the
-- NUL, and what was behind it before.
abbrev pub stored : (buf_len : ℕ) (chunk userdata : Bytes) → Bytes
stored buf_len chunk userdata =
    let n = min (length chunk) (buf_len - 1) in take n chunk ++ 0 ∷ drop (suc n) userdata

length-stored :
    (buf_len : ℕ) (chunk userdata : Bytes)
    → 0 < buf_len
    → buf_len ≤ length userdata
    → length (stored buf_len chunk userdata) ≡ length userdata
length-stored buf_len chunk userdata some_room fits = omega (
  arith,
  length-append (take (min (length chunk) (buf_len - 1)) chunk)
      (0 ∷ drop (suc (min (length chunk) (buf_len - 1))) userdata),
  length-take (min (length chunk) (buf_len - 1)) chunk,
  length-drop (suc (min (length chunk) (buf_len - 1))) userdata,
)

-- For any chunk of `size * nmemb` bytes and a buffer of at least the announced length, which is
-- not 0, the callback stays inside both, stores the chunk up to one byte less than that length
-- with a NUL behind it, keeps the rest and the length of the buffer, and returns what it stored.
write_callback-stored :
    (buf_len : ℕ) (ptr : Bytes) (size nmemb : ℕ) (userdata : Bytes)
    → 0 < buf_len
    → buf_len < 2 ^ 64
    → buf_len ≤ length userdata
    → length ptr ≡ size * nmemb
    → size * nmemb < 2 ^ 64
    → (write_callback buf_len ptr size nmemb userdata
        ≡ some (min (length ptr) (buf_len - 1), stored buf_len ptr userdata))
      × (length (stored buf_len ptr userdata) ≡ length userdata)
unfolding write_callback
write_callback-stored buf_len ptr size nmemb userdata some_room fits room whole small =
    let n : cpy_size buf_len size nmemb ≡ min (length ptr) (buf_len - 1) =
      cpy_size_lem buf_len size nmemb some_room fits small
      ∙ ap (λ k. min k (buf_len - 1)) (sym whole) in
    (
      rw (
        n,
        le→leb (min (length ptr) (buf_len - 1)) (length ptr) (omega arith),
        lt→ltb (min (length ptr) (buf_len - 1)) (length userdata) (omega arith),
      ),
      length-stored buf_len ptr userdata some_room room,
    )

cpy_size_of_0 : (size nmemb : ℕ) → cpy_size 0 size nmemb ≡ 2 ^ 64 - 1
unfolding cpy_size
cpy_size_of_0 size nmemb = ground arith

-- With an announced length of 0 the callback is undefined for every chunk: the size to copy is
-- the largest size_t.
write_callback_empty :
    (ptr : Bytes) (size nmemb : ℕ) (userdata : Bytes)
    → length ptr < 2 ^ 64 - 1
    → write_callback 0 ptr size nmemb userdata ≡ none
unfolding write_callback
write_callback_empty ptr size nmemb userdata small =
    rw (cpy_size_of_0 size nmemb, lt→leb (2 ^ 64 - 1) (length ptr) small)

-- The chunk that decides what is in the buffer: the first that does not fit with its NUL, or the
-- last.
unfoldable pub decisive : (buf_len : ℕ) (chunk : Bytes) (chunks : List Bytes) → Bytes
decisive buf_len chunk [] = chunk
decisive buf_len chunk (next ∷ chunks) =
    let later = decisive buf_len next chunks in if ltb (length chunk) buf_len then later else chunk

whole_iff_fits : (n buf_len : ℕ) → 0 < buf_len → (min n (buf_len - 1) == n) ≡ ltb n buf_len
whole_iff_fits n buf_len some_room = ground arith

perform_next :
    (buf_len : ℕ) (chunk : Bytes) (chunks : List Bytes) (userdata : Bytes)
    → 0 < buf_len
    → buf_len < 2 ^ 64
    → buf_len ≤ length userdata
    → length chunk < 2 ^ 64
    → perform buf_len (chunk ∷ chunks) userdata ≡ (
        if ltb (length chunk) buf_len
        then perform buf_len chunks (stored buf_len chunk userdata)
        else some (stored buf_len chunk userdata))
unfolding perform
perform_next buf_len chunk chunks userdata some_room fits room small = rw (
  (write_callback-stored buf_len chunk 1 (length chunk) userdata some_room fits room (omega arith)
      (omega arith)).0,
  whole_iff_fits (length chunk) buf_len some_room,
)

stored-take :
    (buf_len : ℕ) (chunk userdata : Bytes)
    → (rest : Bytes) × (stored buf_len chunk userdata ≡ take (buf_len - 1) chunk ++ 0 ∷ rest)
stored-take buf_len chunk userdata = (
  drop (suc (min (length chunk) (buf_len - 1))) userdata,
  ap (λ xs. xs ++ 0 ∷ drop (suc (min (length chunk) (buf_len - 1))) userdata)
      (take-min (buf_len - 1) chunk),
)

-- What the buffer ends as: the chunk up to one byte less than the announced length, a NUL, and
-- anything behind it.
abbrev pub Ends : (buf_len : ℕ) (chunk userdata : Bytes) (result : Option Bytes) → Type 0
Ends buf_len chunk userdata result =
    (buf : Bytes) × (rest : Bytes) × (result ≡ some buf)
    × (buf ≡ take (buf_len - 1) chunk ++ 0 ∷ rest)
    × (length buf ≡ length userdata)

stored-Ends :
    (buf_len : ℕ) (chunk userdata : Bytes) (result : Option Bytes)
    → 0 < buf_len
    → buf_len ≤ length userdata
    → result ≡ some (stored buf_len chunk userdata)
    → Ends buf_len chunk userdata result
stored-Ends buf_len chunk userdata result some_room room e =
    let (rest, shape) = stored-take buf_len chunk userdata in
    (
      stored buf_len chunk userdata,
      rest,
      e,
      shape,
      length-stored buf_len chunk userdata some_room room,
    )

same_branches : (b : Bool) (x : Option Bytes) → (if b then x else x) ≡ x
same_branches true x = refl
same_branches false x = refl

perform-Ends :
    (buf_len : ℕ) (chunk : Bytes) (chunks : List Bytes) (userdata : Bytes)
    → 0 < buf_len
    → buf_len < 2 ^ 64
    → buf_len ≤ length userdata
    → All (λ xs. length xs < 2 ^ 64) (chunk ∷ chunks)
    → Ends buf_len
        (decisive buf_len chunk chunks)
        userdata
        (perform buf_len (chunk ∷ chunks) userdata)
unfolding decisive perform
perform-Ends buf_len chunk [] userdata some_room fits room (small, more) =
    stored-Ends buf_len chunk userdata _ some_room room (
      perform_next buf_len chunk [] userdata some_room fits room small
      ∙ same_branches (ltb (length chunk) buf_len) (some (stored buf_len chunk userdata)))
perform-Ends buf_len chunk (next ∷ chunks) userdata some_room fits room (small, more) =
    let now = perform_next buf_len chunk (next ∷ chunks) userdata some_room fits room small in
    elim (Bool-cases (ltb (length chunk) buf_len)) [
      | inl fit ↦
          let same_length = length-stored buf_len chunk userdata some_room room in
          let (buf, rest, e, shape, kept) =
            perform-Ends buf_len next chunks (stored buf_len chunk userdata) some_room fits
              (omega (arith, same_length)) more in
          (buf, rest, now ∙ rw fit e, rw fit shape, kept ∙ same_length)
      | inr big ↦ rw (now, big) (stored-Ends buf_len chunk userdata _ some_room room refl)
    ]

-- Where the answer comes in a first chunk and others, get_blacklist returns, and the buffer is as
-- long as before and holds, up to one byte less than the announced length and with a NUL behind
-- it, one chunk only: the first that does not fit with its NUL, where there is one, and the last
-- otherwise.
pub get_blacklist-Ends :
    (answer : Request → List Bytes) (buf : Bytes) (buf_len : ℕ) (chunk : Bytes)
    → (chunks : List Bytes) → answer request ≡ chunk ∷ chunks
    → 0 < buf_len
    → buf_len < 2 ^ 64
    → buf_len ≤ length buf
    → All (λ xs. length xs < 2 ^ 64) (chunk ∷ chunks)
    → Ends buf_len (decisive buf_len chunk chunks) buf (get_blacklist answer buf buf_len)
unfolding get_blacklist
get_blacklist-Ends answer buf buf_len chunk chunks sent some_room fits room small =
    rw sent (perform-Ends buf_len chunk chunks buf some_room fits room small)
