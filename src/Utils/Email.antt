-- ===== src/Utils/Email.antt =====
-- src/utils/email.util.ts: the normal form of an e-mail address. Lower case is that of the ASCII
-- letters; other letters are kept, where JavaScript follows Unicode.
use recharge_plataform_api.Prelude.{
  ℕ, ◌+◌, ◌≡◌, refl, ap, sym, arith, Bool, false, ◌&&◌, ◌||◌, Option, none, some, [], ◌∷◌, map,
  ◌==◌, leb, if◌then◌else◌, Bool-cases, inl, inr, ◌∙◌,
}
use recharge_plataform_api.Prelude.Text.{Text, codes}
use recharge_plataform_api.Database.{Result, ok, err, js_error}

-- The white space of `String.prototype.trim`, line ends included.
unfoldable pub is_space : ℕ → Bool
is_space c =
    (leb 9 c && leb c 13)
    || (c == 32
        || (c == 160
            || (c == 0x1680
                || ((leb 0x2000 c && leb c 0x200a)
                    || (c == 0x2028
                        || (c == 0x2029
                            || (c == 0x202f || (c == 0x205f || (c == 0x3000 || c == 0xfeff)))))))))

abbrev pub trim_start : Text → Text
trim_start [] = []
trim_start (c ∷ cs) = if is_space c then trim_start cs else c ∷ cs

-- Puts a character before a text, unless it is a space at the end.
abbrev pub put_trimmed : ℕ → Text → Text
put_trimmed c [] = if is_space c then [] else c ∷ []
put_trimmed c (d ∷ ds) = c ∷ d ∷ ds

abbrev pub trim_end : Text → Text
trim_end [] = []
trim_end (c ∷ cs) = put_trimmed c (trim_end cs)

unfoldable pub lower : ℕ → ℕ
lower c = if leb b'A' c && leb c b'Z' then c + 32 else c

-- `email.trim().toLowerCase()`
unfoldable pub normal_form : Text → Text
unfolding lower is_space
normal_form t = map lower (trim_end (trim_start t))

-- `!email` holds of null, undefined and the empty text.
unfoldable pub normalize_email : Option Text → Option Text
unfolding normal_form
normalize_email none = none
normalize_email (some []) = none
normalize_email (some (c ∷ cs)) = some (normal_form (c ∷ cs))

-- `if (!normalized) throw new Error('Email is required')`
abbrev pub require_normalized : Option Text → Result Text
require_normalized none = err (js_error (codes "Email is required"))
require_normalized (some []) = err (js_error (codes "Email is required"))
require_normalized (some (c ∷ cs)) = ok (c ∷ cs)

unfoldable pub normalize_email_required : Text → Result Text
unfolding normalize_email
normalize_email_required t = require_normalized (normalize_email (some t))

lower_twice : (c : ℕ) → lower (lower c) ≡ lower c
unfolding lower
lower_twice c = ground arith

is_space-lower : (c : ℕ) → is_space (lower c) ≡ is_space c
unfolding is_space lower
is_space-lower c = ground arith

lower_all_twice : (t : Text) → map lower (map lower t) ≡ map lower t
lower_all_twice [] = refl
lower_all_twice (c ∷ cs) = rw (lower_twice, lower_all_twice cs)

trim_start-lower : (t : Text) → trim_start (map lower t) ≡ map lower (trim_start t)
trim_start-lower [] = refl
trim_start-lower (c ∷ cs) = ground (arith, is_space-lower c, trim_start-lower cs)

put_trimmed-lower :
    (c : ℕ) (t : Text) → put_trimmed (lower c) (map lower t) ≡ map lower (put_trimmed c t)
put_trimmed-lower c [] = elim (Bool-cases (is_space c)) [
  | inl space ↦ rw (is_space-lower, space)
  | inr other ↦ rw (is_space-lower, other)
]
put_trimmed-lower c (d ∷ ds) = refl

trim_end-lower : (t : Text) → trim_end (map lower t) ≡ map lower (trim_end t)
trim_end-lower [] = refl
trim_end-lower (c ∷ cs) = rw (trim_end-lower cs) (put_trimmed-lower c (trim_end cs))

trim_end-put_trimmed :
    (c : ℕ) (t : Text) → trim_end t ≡ t → trim_end (put_trimmed c t) ≡ put_trimmed c t
trim_end-put_trimmed c [] h = elim (Bool-cases (is_space c)) [
  | inl space ↦ rw space
  | inr other ↦ rw (other, other)
]
trim_end-put_trimmed c (d ∷ ds) h = rw h

trim_end_twice : (t : Text) → trim_end (trim_end t) ≡ trim_end t
trim_end_twice [] = refl
trim_end_twice (c ∷ cs) = trim_end-put_trimmed c (trim_end cs) (trim_end_twice cs)

-- What is trimmed at the start stays so when its end is trimmed.
start-put_trimmed :
    (c : ℕ) (t : Text) → is_space c ≡ false → trim_start (put_trimmed c t) ≡ put_trimmed c t
start-put_trimmed c [] other = ground arith
start-put_trimmed c (d ∷ ds) other = ground arith

start-end-start : (t : Text) → trim_start (trim_end (trim_start t)) ≡ trim_end (trim_start t)
start-end-start [] = refl
start-end-start (c ∷ cs) = ground (arith, start-end-start cs, start-put_trimmed c (trim_end cs))

normal_form_twice : (t : Text) → normal_form (normal_form t) ≡ normal_form t
unfolding normal_form
normal_form_twice t =
    let u : Text = trim_end (trim_start t) in
    ap (λ s. map lower (trim_end s)) (trim_start-lower u)
    ∙ ap (map lower) (trim_end-lower (trim_start u))
    ∙ lower_all_twice (trim_end (trim_start u))
    ∙ ap (λ s. map lower (trim_end s)) (start-end-start t)
    ∙ ap (map lower) (trim_end_twice (trim_start t))

required_form :
    (t e : Text)
    → require_normalized (some t) ≡ ok e
    → (t ≡ e) × (require_normalized (some e) ≡ ok e)
required_form [] e h = cc h
required_form (c ∷ cs) e h = (cc h, ground (arith, h))

normal_required :
    (t e : Text)
    → normalize_email_required t ≡ ok e
    → (normal_form t ≡ e) × (require_normalized (some e) ≡ ok e)
unfolding normalize_email_required normalize_email
normal_required [] e h = cc h
normal_required (c ∷ cs) e h = required_form (normal_form (c ∷ cs)) e h

required_again :
    (e : Text)
    → normal_form e ≡ e
    → require_normalized (some e) ≡ ok e
    → normalize_email_required e ≡ ok e
unfolding normalize_email_required normalize_email
required_again [] same h = cc h
required_again (c ∷ cs) same h = ap (λ s. require_normalized (some s)) same ∙ h

-- An address that normalizeEmailRequired returned is returned unchanged by a second call.
pub normalize_email_required_twice :
    (t e : Text) → normalize_email_required t ≡ ok e → normalize_email_required e ≡ ok e
normalize_email_required_twice t e h =
    let (form, kept) = normal_required t e h in
    required_again e (ap normal_form (sym form) ∙ normal_form_twice t ∙ form) kept
