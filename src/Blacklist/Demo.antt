-- ===== src/Blacklist/Demo.antt =====
-- linux/libcurl/main.c, which prints what get_blacklist stored.
use clpsz_demos.Base.{ℕ, Option, some, List, ◌++◌, Bytes, codes}
use clpsz_demos.Base.Maybe.{◌>>=◌}
use clpsz_demos.Json.Text.{text_of}
use clpsz_demos.Blacklist.{Request, get_blacklist}

abbrev pub cb_buf_size : ℕ
cb_buf_size = 1024

-- What main prints. `stack` is what its array holds before the call: get_blacklist writes to it
-- only when an answer comes. `none` is a "%s" without a NUL in the array.
unfoldable pub main : (answer : Request → List Bytes) (stack : Bytes) → Option Bytes
unfolding get_blacklist text_of
main answer stack = do
  buf ← get_blacklist answer stack cb_buf_size
  text ← text_of buf
  some (text ++ codes "\n")
