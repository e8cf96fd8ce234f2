-- ===== src/Auth/Code.antt =====
-- The six digits of the codes that are mailed.
use recharge_plataform_api.Prelude.{
  ℕ, zero, suc, ◌+◌, ◌-◌, ◌/◌, ◌%◌, ◌<◌, ◌≤◌, ◌≡◌, arith, length, length-append, [], ◌∷◌,
}
use recharge_plataform_api.Prelude.Text.{digits_from, to_decimal}
use recharge_plataform_api.Auth.Session.{random_code}

one_digit : (f n : ℕ) → 0 < f → n < 10 → length (digits_from f n) ≡ 1
unfolding digits_from
one_digit zero n positive h = absurd (omega arith)
one_digit (suc f) n positive h = ground arith

more_digits :
    (f n : ℕ)
    → 0 < f
    → 10 ≤ n
    → length (digits_from f n) ≡ length (digits_from (f - 1) (n / 10)) + 1
unfolding digits_from
more_digits zero n positive h = absurd (omega arith)
more_digits (suc f) n positive h =
    ground (arith, length-append (digits_from f (n / 10)) ((48 + n % 10) ∷ []))

six_digits : (f n : ℕ) → 5 < f → 100000 ≤ n → n < 1000000 → length (digits_from f n) ≡ 6
six_digits f n fuel low high = omega (
  arith,
  more_digits f n (omega arith) (omega arith),
  more_digits (f - 1) (n / 10) (omega arith) (omega arith),
  more_digits (f - 1 - 1) (n / 10 / 10) (omega arith) (omega arith),
  more_digits (f - 1 - 1 - 1) (n / 10 / 10 / 10) (omega arith) (omega arith),
  more_digits (f - 1 - 1 - 1 - 1) (n / 10 / 10 / 10 / 10) (omega arith) (omega arith),
  one_digit (f - 1 - 1 - 1 - 1 - 1) (n / 10 / 10 / 10 / 10 / 10) (omega arith) (omega arith),
)

-- A code has six characters, whatever random number below 900000 it is made from.
pub length-random_code : (r : ℕ) → r < 900000 → length (random_code r) ≡ 6
unfolding random_code to_decimal
length-random_code r h =
    six_digits (suc (100000 + r)) (100000 + r) (omega arith) (omega arith) (omega arith)
