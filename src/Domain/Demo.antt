-- ===== src/Domain/Demo.antt =====
-- linux/domain_socket/main.c: the parent listens and reads, the child connects and writes.
pub mod Exchange
use clpsz_demos.Base.{
  ℕ, ◌+◌, ◌≤◌, ◌≡◌, Option, none, some, [], ◌∷◌, ◌++◌, Bytes, ◌==◌, if◌then◌else◌, codes, length,
}
use clpsz_demos.Base.Maybe.{◌>>=◌}
use clpsz_demos.Domain.{World, Kernel, init_listen_server, accept_client, connect_server}
use clpsz_demos.Json.Text.{text_of}
use clpsz_demos.Uart.Block.{read_bytes, write_bytes}

unfoldable pub request : Bytes
request = codes "/tmp/test_request.domain"

-- What read(2) gives, where none is -1; at most `count` bytes.
pub record Reader : Type 0 where
  pub read : (fd count : ℕ) → Option Bytes
  pub read_bounded : (fd count : ℕ) (xs : Bytes) → read fd count ≡ some xs → length xs ≤ count

unfoldable pub read_from : Reader → Option ℕ → Option Bytes
read_from r none = none
read_from r (some apt_fd) = r.read apt_fd 124

-- `buf[ret] = '\0'` and "%s" of buf, when something was read.
unfoldable pub show : Option Bytes → (buf : Bytes) → Option (Option Bytes)
show none buf = some none
show (some []) buf = some none
show (some (x ∷ xs)) buf = do
  buf ← write_bytes 0 ((x ∷ xs) ++ 0 ∷ []) buf
  text ← text_of buf
  some (some text)

-- `strlen("I am child.") + 1` bytes of a literal of 11; `behind` is what lies behind it.
unfoldable pub greeting : (behind : Bytes) → Option Bytes
greeting behind = read_bytes 0 (length (codes "I am child.") + 1) (codes "I am child" ++ 0 ∷ behind)

-- `if (fd > 0)`, and what is given to write.
unfoldable pub say : (fd : Option ℕ) (behind : Bytes) → Option (Option Bytes)
say none behind = some none
say (some fd) behind =
    let written = greeting behind >>= λ bytes. some (some bytes) in
    if fd == 0 then some none else written

module _ (k : Kernel) where
  -- accept and read of -1 fail.
  unfoldable pub accept_on : Option ℕ → World → Option ℕ × World
  accept_on none w = (none, w)
  accept_on (some lsn_fd) w = accept_client k lsn_fd w

  -- What the parent prints, if anything, and its world. `buf` holds what the stack held.
  unfoldable pub parent : Reader → (buf : Bytes) → World → Option (Option Bytes × World)
  parent r buf w = do
    let lsn_fd = init_listen_server k request w
    let apt_fd = accept_on lsn_fd.0 lsn_fd.1
    text ← show (read_from r apt_fd.0) buf
    some (text, apt_fd.1)

  -- What the child gives to write, if anything, and its world.
  unfoldable pub child : (behind : Bytes) → World → Option (Option Bytes × World)
  child behind w = do
    fd ← connect_server k request w
    written ← say fd.0 behind
    some (written, fd.1)
