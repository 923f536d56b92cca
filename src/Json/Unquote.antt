-- ===== src/Json/Unquote.antt =====
-- print_unquote_string of cJSON/json_wrap.c gives back the text between the quotes.
use clpsz_demos.Base.{
  All-append, ℕ, suc, ◌-◌, ◌≡◌, ◌≢◌, refl, ap, ◌∙◌, some, [], ◌∷◌, ◌++◌, Bytes, All, true, length,
  length-append, set, drop, lt→ltb, arith, append_assoc, ≢→==,
}
use clpsz_demos.Json.{CJson}
use clpsz_demos.Json.Text.{strlen, strncpy, zeros, text_of}
use clpsz_demos.Json.Wrap.{System, print_unquote_string, without_quotes}

abbrev pub NoZero : Bytes → Type 0
NoZero = All (λ x. x ≢ 0)

pub strlen-text : (t rest : Bytes) → NoZero t → strlen (t ++ (0 ∷ rest)) ≡ some (length t)
unfolding strlen
strlen-text [] rest h = refl
strlen-text (x ∷ xs) rest h = rw (≢→== x 0 h.0, strlen-text xs rest h.1)

pub strncpy-text :
    (t rest : Bytes) → NoZero t → strncpy (t ++ (0 ∷ rest)) (suc (length t)) ≡ some (t ++ (0 ∷ []))
unfolding strncpy zeros
strncpy-text [] rest h = refl
strncpy-text (x ∷ xs) rest h = rw (≢→== x 0 h.0, strncpy-text xs rest h.1)

set-append : (t rest : Bytes) (q v : ℕ) → set (t ++ (q ∷ rest)) (length t) v ≡ t ++ (v ∷ rest)
set-append [] rest q v = refl
set-append (x ∷ xs) rest q v = ap (λ (r : Bytes). x ∷ r) (set-append xs rest q v)

-- A string as cJSON prints it, when it has no character to escape.
abbrev pub quoted : Bytes → Bytes
quoted t = b'"' ∷ (t ++ (b'"' ∷ []))

quoted-NoZero : (t : Bytes) → NoZero t → NoZero (quoted t)
quoted-NoZero t h =
    ((λ q. absurd (omega arith)), All-append (λ x. x ≢ 0) t _ h ((λ q. absurd (omega arith)), tt))

length-quoted : (t : Bytes) → length (quoted t) ≡ suc (suc (length t))
length-quoted t = omega (arith, length-append t (b'"' ∷ []))

without_quotes_lem :
    (sys : System) (text new : Bytes) (n : ℕ)
    → strlen (text ++ (0 ∷ [])) ≡ some (suc n)
    → strncpy (drop 1 (set (text ++ (0 ∷ [])) n 0)) n ≡ some new
    → sys.room n ≡ true
    → without_quotes sys text ≡ some (some new)
unfolding without_quotes
without_quotes_lem sys text new n len copied room =
    let back : suc n - 1 ≡ n = omega arith in
    rw (len, back, copied, room, lt→ltb 0 (suc n) (omega arith))

-- For a string that cJSON prints as its text between two quotes, the text without a zero byte,
-- and with memory for the copy, the result is a block of exactly the text and its terminator.
pub print_unquote_string-quoted :
    (J : CJson) (sys : System) (v : J.Value) (t : Bytes)
    → J.is_string v ≡ true
    → J.print_unformatted v ≡ some (quoted t)
    → NoZero t
    → sys.room (suc (length t)) ≡ true
    → print_unquote_string J sys (some v) ≡ some (some (t ++ (0 ∷ [])))
unfolding print_unquote_string
print_unquote_string-quoted J sys v t string printed clean room =
    let cut : set (quoted t ++ (0 ∷ [])) (suc (length t)) 0 ≡ b'"' ∷ (t ++ (0 ∷ 0 ∷ [])) =
      rw (append_assoc) (ap (λ (r : Bytes). b'"' ∷ r) (set-append t (0 ∷ []) b'"' 0)) in
    rw (string, printed)
      (without_quotes_lem sys (quoted t) _ (suc (length t))
        (strlen-text (quoted t) [] (quoted-NoZero t clean) ∙ ap some (length-quoted t))
        (rw cut (strncpy-text t (0 ∷ []) clean)) room)

pub text_of-text : (t rest : Bytes) → NoZero t → text_of (t ++ (0 ∷ rest)) ≡ some t
unfolding text_of
text_of-text [] rest h = refl
text_of-text (x ∷ xs) rest h = rw (≢→== x 0 h.0, text_of-text xs rest h.1)
