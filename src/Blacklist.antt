-- ===== src/Blacklist.antt =====
-- linux/libcurl/blacklist.c: the callback that stores a chunk of the answer, and the request.
-- The pieces that libcurl delivers are arguments; size_t has 64 bits.
pub mod Chunks
pub mod Demo
mod Tests
use clpsz_demos.Base.{
  ℕ, suc, ◌+◌, ◌*◌, ◌%◌, ◌^◌, ◌-◌, Option, none, some, List, [], ◌∷◌, ◌++◌, Bytes, Bool, true,
  false, ltb, leb, ◌==◌, ◌&&◌, if◌then◌else◌, codes, length, take, drop,
}
use clpsz_demos.Base.Maybe.{◌>>=◌}

unfoldable pub cpy_size : (buf_len size nmemb : ℕ) → ℕ
cpy_size buf_len size nmemb =
    if ltb (size * nmemb % 2 ^ 64) buf_len
    then size * nmemb % 2 ^ 64
    else (buf_len + 2 ^ 64 - 1) % 2 ^ 64

-- `buf_len` is curl_callback_buf_len. The result, and the buffer after the call. `none` is
-- undefined behaviour: memcpy past the end of the chunk or of the buffer.
unfoldable pub write_callback :
    (buf_len : ℕ) (ptr : Bytes) (size nmemb : ℕ) (userdata : Bytes) → Option (ℕ × Bytes)
write_callback buf_len ptr size nmemb userdata =
    let n = cpy_size buf_len size nmemb in
    if leb n (length ptr) && ltb n (length userdata)
    then some (n, take n ptr ++ 0 ∷ drop (suc n) userdata)
    else none

unfoldable pub get_dev_id : Bytes
get_dev_id = codes "RJ201410162001"

unfoldable pub final_host : Bytes
final_host = codes "box.uhappybox.com:81"

unfoldable pub update_black_list : Bytes
update_black_list = final_host ++ codes "/uApi.php"

-- snprintf into 256 bytes: the text up to 255 bytes. 34 is the quotation mark.
abbrev pub quoted : Bytes → Bytes
quoted text = 34 ∷ text ++ 34 ∷ []

unfoldable pub get_blacklist_post_str : Bytes
get_blacklist_post_str = take 255 (
    codes "{"
    ++ quoted (codes "request")
    ++ codes ":"
    ++ quoted (codes "3GBlackList")
    ++ codes ","
    ++ quoted (codes "device")
    ++ codes ":"
    ++ quoted get_dev_id
    ++ codes ","
    ++ quoted (codes "param")
    ++ codes ":[]}")

-- The options of the handle.
pub record Request : Type 0 where
  pub headers : List Bytes
  pub url : Bytes
  pub post_fields : Bytes

unfoldable pub request : Request
request = record {
  headers = codes "Content-Type: application/json" ∷ [];
  url = update_black_list;
  post_fields = get_blacklist_post_str;
}

-- curl_easy_perform calls the callback for each chunk with size 1, and stops when the result is
-- not the size of the chunk.
unfoldable pub perform : (buf_len : ℕ) (chunks : List Bytes) (userdata : Bytes) → Option Bytes
perform buf_len [] userdata = some userdata
perform buf_len (chunk ∷ chunks) userdata = do
  stored ← write_callback buf_len chunk 1 (length chunk) userdata
  let rest = perform buf_len chunks stored.1
  if stored.0 == length chunk then rest else some stored.1

-- `answer` is what the server sends to a request, in chunks. The buffer at the end; the code that
-- curl_easy_perform returns is not looked at.
unfoldable pub get_blacklist :
    (answer : Request → List Bytes) (buf : Bytes) (buf_len : ℕ) → Option Bytes
get_blacklist answer buf buf_len = perform buf_len (answer request) buf
