-- ===== src/Bigo/Message/RoundTrip.antt =====
-- The code that was written into a message is the code that is read back.
use recharge_plataform_api.Prelude.{
  ℕ, zero, suc, ◌+◌, ◌-◌, ◌*◌, ◌/◌, ◌%◌, ◌<◌, ◌≡◌, refl, ◌∙◌, inl, inr, Bool, true, false, Option,
  some, [], ◌∷◌, ◌++◌, arith, ◌==◌, ltb, if◌then◌else◌, Bool-cases, ltb→lt, All,
}
use mathlib.Core.List.{append_assoc}
use recharge_plataform_api.Prelude.Text.{Text, codes, digits_from, to_decimal, includes}
use recharge_plataform_api.Bigo.Message.{
  format_error, scan_digits, match_code, user_message, get_bigo_error_message,
  extract_rescode_from_error,
}

-- What `scan_digits` has accumulated after the digits that `digits_from f n` writes.
accumulated : ℕ → ℕ → ℕ → ℕ
accumulated zero acc n = acc
accumulated (suc f) acc n =
    let rest = accumulated f acc (n / 10) * 10 + n % 10 in if ltb n 10 then acc * 10 + n else rest

scan-digit :
    (acc d : ℕ) (seen : Bool) (rest : Text)
    → d < 10
    → scan_digits acc seen ((48 + d) ∷ rest) ≡ scan_digits (acc * 10 + d) true rest
unfolding scan_digits
scan-digit acc d seen rest h = let e : 48 + d - 48 ≡ d = omega arith in rw e (ground arith)

scan-digits_from :
    (f acc n : ℕ) (seen : Bool) (rest : Text)
    → n < f
    → scan_digits acc seen (digits_from f n ++ rest) ≡ scan_digits (accumulated f acc n) true rest
unfolding digits_from accumulated
scan-digits_from zero acc n seen rest h = elim h [ ]
scan-digits_from (suc f) acc n seen rest h = elim (Bool-cases (ltb n 10)) [
  | inl small ↦ rw small (scan-digit acc n seen rest (ltb→lt n 10 small))
  | inr large ↦
      rw (large, append_assoc)
        (scan-digits_from f acc (n / 10) seen ((48 + n % 10) ∷ rest) (ground arith)
          ∙ scan-digit (accumulated f acc (n / 10)) (n % 10) true rest (omega arith))
]

accumulated_zero : (f n : ℕ) → n < f → accumulated f 0 n ≡ n
unfolding accumulated
accumulated_zero zero n h = elim h [ ]
accumulated_zero (suc f) n h = ground (arith, accumulated_zero f (n / 10))

-- The digits of a number, up to the closing parenthesis, scan to that number.
scan-to_decimal : (n : ℕ) (rest : Text) → scan_digits 0 false (to_decimal n ++ b')' ∷ rest) ≡ some n
unfolding to_decimal
scan-to_decimal n rest =
    scan-digits_from (suc n) 0 n false (b')' ∷ rest) (omega arith)
    ∙ (rw (accumulated_zero (suc n) n (omega arith)) (unfold scan_digits in refl))

-- No character of the text opens a parenthesis.
abbrev pub HasNoParen : Text → Type 0
HasNoParen = All (λ c. (c == b'(') ≡ false)

match_code-append : (pre t : Text) → HasNoParen pre → match_code (pre ++ t) ≡ match_code t
unfolding match_code
match_code-append [] t h = refl
match_code-append (c ∷ pre) t h = rw h.0 (match_code-append pre t h.1)

includes-append : (pre t p : Text) → includes t p ≡ true → includes (pre ++ t) p ≡ true
includes-append [] t p h = h
includes-append (c ∷ pre) t p h = ground (arith, includes-append pre t p h)

match_code_prefix :
    (digits rest : Text) {n : ℕ}
    → scan_digits 0 false (digits ++ b')' ∷ rest) ≡ some n
    → match_code (codes "Bigo API Error (" ++ (digits ++ b')' ∷ rest)) ≡ some n
unfolding match_code
match_code_prefix digits rest e = rw e

match_code-format_error :
    (pre : Text) (rescode : ℕ) (text : Text)
    → HasNoParen pre
    → match_code (pre ++ format_error rescode text) ≡ some rescode
match_code-format_error pre rescode text h =
    match_code-append pre (format_error rescode text) h
    ∙ match_code_prefix (to_decimal rescode) (codes ": " ++ text) (scan-to_decimal rescode _)

extract_rescode-format_error :
    (pre : Text) (rescode : ℕ) (text : Text)
    → HasNoParen pre
    → extract_rescode_from_error (pre ++ format_error rescode text) ≡ rescode
unfolding extract_rescode_from_error
extract_rescode-format_error pre rescode text h =
    rw (includes-append pre (format_error rescode text) (codes "Bigo API Error") refl)
      (rw (match_code-format_error pre rescode text h) refl)

-- Whatever text without a parenthesis an exception puts in front of the message of a Bigo error,
-- `extractRescodeFromError` reads back the result code that `getBigoErrorMessage` wrote.
pub extract_rescode-get_bigo_error_message :
    (pre : Text) (rescode : ℕ) (original : Option Text)
    → HasNoParen pre
    → extract_rescode_from_error (pre ++ get_bigo_error_message rescode original) ≡ rescode
unfolding get_bigo_error_message
extract_rescode-get_bigo_error_message pre rescode original h =
    extract_rescode-format_error pre rescode (user_message rescode original) h
