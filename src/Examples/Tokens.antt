-- ===== src/Examples/Tokens.antt =====
-- A signer of tokens and a hash of passwords, to run the examples of `Auth` with. A token is the
-- instant of its end and the claims, each text after its length.
use recharge_plataform_api.Prelude.{
  ℕ, zero, suc, ◌+◌, ◌/◌, ◌<◌, ◌≡◌, refl, ap, Option, none, some, [], ◌∷◌, ◌++◌, ◌==◌, ltb, length,
  if◌then◌else◌, lt→ltb,
}
use recharge_plataform_api.Prelude.Text.{Text, text_eq, text_eq_self}
use recharge_plataform_api.Schema.{
  UserRole, master_admin, reseller_admin, plain_user, IndividualType, cpf, cnpj,
}
use recharge_plataform_api.Auth.Session.{Bcrypt, Jwt, Claims}

abbrev first : ℕ → Text → Text
first zero t = []
first (suc n) [] = []
first (suc n) (c ∷ cs) = c ∷ first n cs

abbrev rest : ℕ → Text → Text
rest zero t = t
rest (suc n) [] = []
rest (suc n) (c ∷ cs) = rest n cs

abbrev put : Text → Text → Text
put t r = length t ∷ (t ++ r)

abbrev head_text : Text → Text
head_text [] = []
head_text (n ∷ t) = first n t

abbrev tail_text : Text → Text
tail_text [] = []
tail_text (n ∷ t) = rest n t

first-append : (t r : Text) → first (length t) (t ++ r) ≡ t
first-append [] r = refl
first-append (c ∷ cs) r = ap (λ x. c ∷ x) (first-append cs r)

rest-append : (t r : Text) → rest (length t) (t ++ r) ≡ r
rest-append [] r = refl
rest-append (c ∷ cs) r = rest-append cs r

abbrev put_option : Option Text → Text → Text
put_option none r = 0 ∷ put [] r
put_option (some t) r = 1 ∷ put t r

abbrev head_option : Text → Option Text
head_option [] = none
head_option (n ∷ t) = if n == 0 then none else some (head_text t)

abbrev tail_option : Text → Text
tail_option [] = []
tail_option (n ∷ t) = tail_text t

head-put_option : (o : Option Text) (r : Text) → head_option (put_option o r) ≡ o
head-put_option none r = refl
head-put_option (some t) r = ap some (first-append t r)

tail-put_option : (o : Option Text) (r : Text) → tail_option (put_option o r) ≡ r
tail-put_option none r = refl
tail-put_option (some t) r = rest-append t r

abbrev type_code : IndividualType → ℕ
type_code cpf = 0
type_code cnpj = 1

abbrev type_of : ℕ → IndividualType
type_of n = if n == 0 then cpf else cnpj

type_of_code : (t : IndividualType) → type_of (type_code t) ≡ t
type_of_code cpf = refl
type_of_code cnpj = refl

abbrev role_code : Option UserRole → ℕ
role_code none = 0
role_code (some plain_user) = 1
role_code (some reseller_admin) = 2
role_code (some master_admin) = 3

abbrev role_of : ℕ → Option UserRole
role_of n =
    if n == 0
    then none
    else if n == 1
    then some plain_user
    else if n == 2
    then some reseller_admin
    else some master_admin

role_of_code : (r : Option UserRole) → role_of (role_code r) ≡ r
role_of_code none = refl
role_of_code (some plain_user) = refl
role_of_code (some reseller_admin) = refl
role_of_code (some master_admin) = refl

abbrev sign : ℕ → Claims → ℕ → Text
sign now c lifetime =
    (now / 1000 + lifetime)
    ∷ c.profile.id
    ∷ c.store_id
    ∷ role_code c.role
    ∷ type_code c.profile.document_type
    ∷ put c.profile.email (
        put c.profile.phone (
          put c.profile.document_value
            (put c.profile.name (put_option c.profile.recharge_bigo_id []))))

abbrev verify : ℕ → Text → Option Claims
verify now (end ∷ id ∷ store ∷ role ∷ type ∷ t) =
    if ltb (now / 1000) end
    then some (record {
      profile = record {
        id = id;
        email = head_text t;
        phone = head_text (tail_text t);
        document_type = type_of type;
        document_value = head_text (tail_text (tail_text t));
        recharge_bigo_id = head_option (tail_text (tail_text (tail_text (tail_text t))));
        name = head_text (tail_text (tail_text (tail_text t)));
      };
      store_id = store;
      role = role_of role;
    })
    else none
verify now t = none

pub verify-sign :
    (now : ℕ) (c : Claims) (lifetime later : ℕ)
    → later / 1000 < now / 1000 + lifetime
    → verify later (sign now c lifetime) ≡ some c
verify-sign now c lifetime later fresh = rw (
  lt→ltb (later / 1000) (now / 1000 + lifetime) fresh,
  first-append,
  rest-append,
  first-append,
  rest-append,
  first-append,
  rest-append,
  first-append,
  rest-append,
  head-put_option,
  type_of_code,
  role_of_code,
)

abbrev pub jwt : Jwt
jwt = record { sign = sign; verify = verify; verify-sign = verify-sign }

abbrev pub bcrypt : Bcrypt
bcrypt = record {
  hash = λ salt password. password;
  compare = text_eq;
  compare-hash = λ salt password. text_eq_self password;
}
