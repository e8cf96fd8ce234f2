-- ===== src/Bigo/Message.antt =====
-- The error messages of `bigo.service.ts`: how a result code of the Bigo API is written into the
-- message of an exception, and how the retry logic reads it back.
pub mod RoundTrip
use recharge_plataform_api.Prelude.{
  ℕ, ◌+◌, ◌-◌, ◌*◌, Bool, true, false, ◌&&◌, Option, none, some, List, [], ◌∷◌, ◌++◌, ◌==◌,
  if◌then◌else◌,
}
use recharge_plataform_api.Prelude.Text.{Text, codes, includes, to_decimal, is_digit}

-- The literal `errorMap`, in the order of the source.
error_map : List (ℕ × Text)
error_map =
    (400001, codes "Invalid request parameters")
    ∷ (7212001, codes "Recharge API disabled by Bigo")
    ∷ (7212002, codes "Recharge API disabled by third-party website")
    ∷ (7212003, codes "IP not authorized to make requests")
    ∷ (7212006, codes "Reseller not linked to client_id")
    ∷ (7212004, codes "Bigo user does not exist")
    ∷ (7212005, codes "User cannot be recharged")
    ∷ (7212008, codes "Diamond amount exceeds upper limit")
    ∷ (7212009, codes "Currency not supported")
    ∷ (7212010, codes "Order ID duplicated")
    ∷ (7212011, codes "Insufficient balance")
    ∷ (7212012, codes "Request too frequent, please wait a moment")
    ∷ (7212013, codes "Diamond pricing outside specified range")
    ∷ (7212014, codes "User area not eligible")
    ∷ (7212015, codes "Recharge not supported in your area")
    ∷ (500001, codes "Internal error, contact Bigo team")
    ∷ []

-- `errorMap[rescode]`
error_text : ℕ → List (ℕ × Text) → Option Text
error_text n [] = none
error_text n ((k, t) ∷ rest) = if n == k then some t else error_text n rest

-- `originalMessage || 'Unknown error'`
or_unknown : Option Text → Text
or_unknown none = codes "Unknown error"
or_unknown (some []) = codes "Unknown error"
or_unknown (some (c ∷ cs)) = c ∷ cs

-- `Bigo API Error (${rescode}): ${text}`
abbrev pub format_error : ℕ → Text → Text
format_error rescode text =
    codes "Bigo API Error (" ++ (to_decimal rescode ++ (codes "): " ++ text))

-- `errorMap[rescode]`, or the original message where the map has none.
user_message : ℕ → Option Text → Text
unfolding error_text error_map or_unknown
user_message rescode original = elim (error_text rescode error_map) [
  | some text ↦ text
  | none ↦ or_unknown original
]

unfoldable pub get_bigo_error_message : ℕ → Option Text → Text
unfolding user_message
get_bigo_error_message rescode original = format_error rescode (user_message rescode original)

-- `\d+\)` after the `(`: the digits read so far, and whether there is one.
pub scan_digits : ℕ → Bool → Text → Option ℕ
scan_digits acc seen [] = none
scan_digits acc seen (c ∷ cs) =
    let rest = scan_digits (acc * 10 + (c - 48)) true cs in
    if is_digit c then rest else if c == b')' && seen then some acc else none

-- The first match of `/\((\d+)\)/`, with `parseInt` of its group.
pub match_code : Text → Option ℕ
unfolding scan_digits
match_code [] = none
match_code (c ∷ cs) =
    let later = match_code cs in
    if c == b'(' then elim (scan_digits 0 false cs) [ some n ↦ some n | none ↦ later ] else later

abbrev pub internal_error : ℕ
internal_error = 500001

unfoldable pub extract_rescode_from_error : Text → ℕ
unfolding match_code
extract_rescode_from_error message =
    if includes message (codes "Bigo API Error")
    then elim (match_code message) [ some n ↦ n | none ↦ internal_error ]
    else internal_error
