-- ===== src/Domain/Demo/Exchange.antt =====
-- What the two ends of linux/domain_socket/main.c print and write.
use clpsz_demos.Base.{
  ℕ, zero, suc, ◌≤◌, ◌≡◌, ◌==◌, refl, Option, none, some, [], ◌∷◌, ◌++◌, Bytes, if◌then◌else◌,
  codes, length, arith, inl, inr, Bool-cases, drop, length-append, ≢→==,
}
use clpsz_demos.Domain.{World, Kernel, init_listen_server, connect_server}
use clpsz_demos.Domain.Demo.{
  request, Reader, accept_on, read_from, show, parent, greeting, say, child,
}
use clpsz_demos.Domain.Descriptors.{connect_server-Accounted}
use clpsz_demos.Json.Text.{text_of}
use clpsz_demos.Uart.Block.{read_bytes, write_bytes_front}

-- The bytes before the first NUL, or all.
unfoldable pub before_nul : Bytes → Bytes
before_nul [] = []
before_nul (x ∷ xs) = let rest = before_nul xs in if x == 0 then [] else x ∷ rest

text_of-terminated : (xs behind : Bytes) → text_of ((xs ++ 0 ∷ []) ++ behind) ≡ some (before_nul xs)
unfolding text_of before_nul
text_of-terminated [] behind = refl
text_of-terminated (x ∷ xs) behind = elim (Bool-cases (x == 0)) [
  | inl is ↦ rw is refl
  | inr not_nul ↦ rw (not_nul, text_of-terminated xs behind) refl
]

-- What is printed for what read gives: nothing for an error or no bytes.
abbrev pub printed_for : Option Bytes → Option Bytes
printed_for none = none
printed_for (some []) = none
printed_for (some (x ∷ xs)) = some (before_nul (x ∷ xs))

AtMost : ℕ → Option Bytes → Type 0
AtMost n given = (xs : Bytes) → given ≡ some xs → length xs ≤ n

read_from-AtMost : (r : Reader) (fd : Option ℕ) → AtMost 124 (read_from r fd)
unfolding read_from AtMost
read_from-AtMost r none xs e = ground arith
read_from-AtMost r (some apt_fd) xs e = r.read_bounded apt_fd 124 xs e

show-printed_for :
    (given : Option Bytes) (buf : Bytes)
    → length buf ≡ 128
    → AtMost 124 given
    → show given buf ≡ some (printed_for given)
unfolding show AtMost
show-printed_for none buf room short = refl
show-printed_for (some []) buf room short = refl
show-printed_for (some (x ∷ xs)) buf room short =
    let fits : length (x ∷ xs) ≤ 124 = short (x ∷ xs) refl in
    rw (
      write_bytes_front ((x ∷ xs) ++ 0 ∷ []) buf
          (omega (arith, room, fits, length-append xs (0 ∷ []))),
      text_of-terminated (x ∷ xs) (drop (length ((x ∷ xs) ++ 0 ∷ [])) buf),
    )

-- Whatever socket, bind, listen, accept and read answer, the parent stays inside its buffer, and
-- prints the bytes that read gives up to the first NUL, and nothing when a call fails or read gives
-- no bytes, whatever the buffer held.
pub parent-printed_for :
    (k : Kernel) (r : Reader) (buf : Bytes) (w : World)
    → length buf ≡ 128
    → parent k r buf w
      ≡ some (
        printed_for (
            read_from r
              (accept_on k
                (init_listen_server k request w).0
                (init_listen_server k request w).1).0),
        (accept_on k (init_listen_server k request w).0 (init_listen_server k request w).1).1,
      )
unfolding parent
parent-printed_for k r buf w room =
    let apt = accept_on k (init_listen_server k request w).0 (init_listen_server k request w).1 in
    rw (show-printed_for (read_from r apt.0) buf room (read_from-AtMost r apt.0)) refl

-- The text, its terminator and the byte behind the literal.
abbrev pub greeted : ℕ → Bytes
greeted b = codes "I am child" ++ 0 ∷ b ∷ []

greeting_lem : (b : ℕ) (rest : Bytes) → greeting (b ∷ rest) ≡ some (greeted b)
unfolding greeting read_bytes
greeting_lem b rest = refl

-- What the child writes on a descriptor.
abbrev pub written_on : (fd : Option ℕ) (b : ℕ) → Option Bytes
written_on none b = none
written_on (some zero) b = none
written_on (some (suc fd)) b = some (greeted b)

say-written_on : (fd : Option ℕ) (b : ℕ) (rest : Bytes) → say fd (b ∷ rest) ≡ some (written_on fd b)
unfolding say
say-written_on none b rest = refl
say-written_on (some zero) b rest = refl
say-written_on (some (suc fd)) b rest = rw (≢→== (suc fd) 0 (λ e. omega arith), greeting_lem b rest)

-- Whatever socket and connect answer, with a byte behind its literal the child gives to write the
-- text, the terminator and that byte, 12 in all, when it is connected on a descriptor other than
-- 0, and else nothing; the bytes up to the first NUL are the text.
pub child-written_on :
    (k : Kernel) (b : ℕ) (rest : Bytes) (w : World)
    → (out : Option ℕ × World) × (connect_server k request w ≡ some out)
      × (child k (b ∷ rest) w ≡ some (written_on out.0 b, out.1))
      × (length (greeted b) ≡ 12)
      × (before_nul (greeted b) ≡ codes "I am child")
unfolding child before_nul request
child-written_on k b rest w =
    let (out, connects, rest_of) = connect_server-Accounted k request w (omega arith) in
    (out, connects, rw (connects, say-written_on out.0 b rest) refl, refl, refl)
