-- ===== src/Blacklist/Tests.antt =====
-- An answer in two chunks.
use clpsz_demos.Base.{
  ℕ, zero, suc, ◌≡◌, refl, none, some, List, [], ◌∷◌, ◌++◌, Bytes, codes, length, arith,
}
use clpsz_demos.Blacklist.Demo.{main}
use clpsz_demos.Blacklist.{
  write_callback, get_blacklist, perform, Request, cpy_size, get_blacklist_post_str, get_dev_id,
}
use clpsz_demos.Blacklist.Chunks.{decisive, Ends, get_blacklist-Ends}

abbrev buffer : Bytes
buffer = codes "........"

abbrev answer : Request → List Bytes
answer asked = codes "abc" ∷ codes "de" ∷ []

get_blacklist-Ends_example :
    Ends 8 (decisive 8 (codes "abc") (codes "de" ∷ [])) buffer (get_blacklist answer buffer 8)
get_blacklist-Ends_example =
    get_blacklist-Ends answer buffer 8 (codes "abc") (codes "de" ∷ []) refl (omega arith)
      (omega arith) (omega arith) (omega arith, (omega arith, tt))

-- The first chunk is lost but for what is behind the second.
last_only : get_blacklist answer buffer 8 ≡ some (codes "de" ++ 0 ∷ 0 ∷ codes "....")
unfolding get_blacklist perform write_callback cpy_size
last_only = refl

-- Nothing is stored when nothing comes, not even a NUL.
no_answer : get_blacklist (λ asked. []) buffer 8 ≡ some buffer
unfolding get_blacklist perform
no_answer = refl

posted : length get_blacklist_post_str ≡ 62
unfolding get_blacklist_post_str get_dev_id
posted = refl

-- What lies on the stack: 1024 bytes without a NUL.
abbrev filled : ℕ → Bytes
filled zero = []
filled (suc n) = b'.' ∷ filled n

printed_run : main answer (filled 1024) ≡ some (codes "de\n")
unfolding main perform write_callback cpy_size
printed_run = refl

-- Without an answer, main reads past its array.
silent_run : main (λ asked. []) (filled 1024) ≡ none
unfolding main perform
silent_run = refl
