-- ===== src/Auth/Session.antt =====
-- What `AuthService` takes from bcrypt and @nestjs/jwt, and the sessions that it answers with.
use recharge_plataform_api.Prelude.{
  ℕ, ◌+◌, ◌*◌, ◌/◌, ◌<◌, ◌≡◌, Bool, true, Option, none, some, ◌&&◌, ◌==◌, head?,
}
use recharge_plataform_api.Prelude.Text.{Text, text_eq, to_decimal}
use recharge_plataform_api.Prisma.{Prisma}
use recharge_plataform_api.Schema.{User, UserRole, IndividualType, Store}
use recharge_plataform_api.Database.{World, Action, Error, ok, err, on_option}

-- `bcrypt.hash(password, 10)` with the salt that it draws, and `bcrypt.compare(password, hash)`.
pub record Bcrypt : Type 0 where
  pub hash : Text → Text → Text
  pub compare : Text → Text → Bool
  pub compare-hash : (salt password : Text) → compare password (hash salt password) ≡ true

-- The columns of a user that every token and answer carries.
pub record Profile : Type 0 where
  pub id : ℕ
  pub email : Text
  pub phone : Text
  pub document_type : IndividualType
  pub document_value : Text
  pub recharge_bigo_id : Option Text
  pub name : Text

-- What is signed; only an admin's token holds a role.
pub record Claims : Type 0 where
  pub profile : Profile
  pub store_id : ℕ
  pub role : Option UserRole

-- `signAsync(data, { expiresIn })` at an instant, for a number of seconds, and `verifyAsync`, which
-- throws (`none`) if the token is not valid or has expired. Both count whole seconds.
pub record Jwt : Type 0 where
  pub sign : ℕ → Claims → ℕ → Text
  pub verify : ℕ → Text → Option Claims
  pub verify-sign :
      (now : ℕ) (claims : Claims) (lifetime later : ℕ)
      → later / 1000 < now / 1000 + lifetime
      → verify later (sign now claims lifetime) ≡ some claims

-- The user of an answer: with the store's id, or, for an admin, with the store and, after a refresh,
-- its id.
pub data View : Type 0 where
  member : Profile → ℕ → View
  admin : Profile → Option ℕ → Store → View

pub record Session : Type 0 where
  pub access_token : Text
  pub refresh_token : Text
  pub expires_in : ℕ
  pub view : View

abbrev pub profile_of : ℕ → User → Profile
profile_of id u = record {
  id = id;
  email = u.email;
  phone = u.phone;
  document_type = u.document_type;
  document_value = u.document_value;
  recharge_bigo_id = u.recharge_bigo_id;
  name = u.name;
}

-- The `data` of a member: no role.
abbrev pub claims_of : ℕ → User → Claims
claims_of id u = record { profile = profile_of id u; store_id = u.store_id; role = none }

-- '10m' and '7d', in seconds.
abbrev pub access_lifetime : ℕ
access_lifetime = 600

abbrev pub refresh_lifetime : ℕ
refresh_lifetime = 604800

-- Signs the claims for ten minutes and for seven days.
abbrev pub open_session : Jwt → ℕ → Claims → View → Session
open_session jwt now claims view = record {
  access_token = jwt.sign now claims access_lifetime;
  refresh_token = jwt.sign now claims refresh_lifetime;
  expires_in = 10 * 60;
  view = view;
}

abbrev pub member_session : Jwt → ℕ → ℕ → User → Session
member_session jwt now id u =
    open_session jwt now (claims_of id u) (member (profile_of id u) u.store_id)

-- `Math.floor(100000 + Math.random() * 900000).toString()`; the argument is the random part, rounded
-- down.
unfoldable pub random_code : ℕ → Text
unfolding to_decimal
random_code r = to_decimal (100000 + r)

module _ (P : Prisma) where
  -- `where: { email, storeId }`
  abbrev pub has_email : Text → ℕ → User → Bool
  has_email email store u = text_eq u.email email && u.store_id == store

  abbrev pub find_user : Text → ℕ → World P → Option (ℕ × User)
  find_user email store w = head? (P.find_many w.users (has_email email store))

  -- `findFirst`, and `if (!user) throw`.
  abbrev pub require_user : Error → Text → ℕ → Action (World P) (ℕ × User)
  require_user e email store w = (on_option (err e) ok (find_user email store w), w)

  -- `updateMany({ where: { email, storeId }, data })`
  abbrev pub update_users : Text → ℕ → (User → User) → Action (World P) (Unit {0})
  update_users email store f w =
      (ok tt, record w { users = P.update_many w.users (λ i u. has_email email store u) f })

  abbrev pub update_user : ℕ → (User → User) → Action (World P) (Unit {0})
  update_user id f w = (ok tt, record w { users = P.update w.users id f })
