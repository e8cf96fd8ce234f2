-- ===== src/Auth/Login.antt =====
-- `login`, `adminLogin`, `refreshAccessToken` and `changePassword`.
pub mod Laws
use recharge_plataform_api.Prelude.{
  ℕ, Bool, true, false, ◌&&◌, not, Option, none, some, head?, if◌then◌else◌,
}
use recharge_plataform_api.Prelude.Text.{Text, codes, text_eq}
use recharge_plataform_api.Prisma.{Prisma}
use recharge_plataform_api.Schema.{User, UserRole, plain_user, Store}
use recharge_plataform_api.Database.{
  World, Action, ok, err, Error, http_exception, js_error, unauthorized, bad_request, pure, throw,
  throw_if, try_catch, on_option, ◌>>=◌, ◌>>◌,
}
use recharge_plataform_api.Bigo.Service.{lift}
use recharge_plataform_api.Utils.Email.{normalize_email_required}
use recharge_plataform_api.Auth.Session.{
  Bcrypt, Jwt, Claims, Session, admin, member, profile_of, member_session, open_session,
  access_lifetime, require_user, update_user,
}

abbrev invalid_login : Error
invalid_login = http_exception unauthorized (codes "User or password invalid")

abbrev unverified : Error
unverified = http_exception unauthorized (codes "Email not verified")

-- `role: { in: ['RESELLER_ADMIN_4MIGA_USER', 'MASTER_ADMIN_4MIGA_USER'] }`
abbrev pub is_admin : UserRole → Bool
is_admin plain_user = false
is_admin r = true

abbrev pub is_admin_claim : Option UserRole → Bool
is_admin_claim none = false
is_admin_claim (some r) = is_admin r

module _ (P : Prisma) (jwt : Jwt) where
  -- The store of a user; a field of `null` is a TypeError.
  abbrev store_of : User → Action (World P) Store
  store_of u w = (
    on_option (err (js_error (codes "Cannot read properties of null (reading 'id')"))) ok
        (P.find_unique w.stores u.store_id),
    w,
  )

  module _ (bcrypt : Bcrypt) where
    unfoldable pub login : ℕ → Text → Text → ℕ → Action (World P) Session
    login now email password store = do
      normalized ← lift (normalize_email_required email)
      e ← require_user P invalid_login normalized store
      throw_if (not e.1.email_verified) unverified
      throw_if (not (bcrypt.compare password e.1.password)) invalid_login
      pure (member_session jwt now e.0 e.1)

    -- By e-mail and role, at any store.
    unfoldable pub admin_login : ℕ → Text → Text → Action (World P) Session
    admin_login now email password = do
      normalized ← lift (normalize_email_required email)
      e ← λ w. (
        on_option (err invalid_login) ok
            (head? (P.find_many w.users (λ u. text_eq u.email normalized && is_admin u.role))),
        w,
      )
      throw_if (not e.1.email_verified) unverified
      throw_if (not (bcrypt.compare password e.1.password)) invalid_login
      store ← store_of e.1
      pure (
          open_session jwt now
            (record { profile = profile_of e.0 e.1; store_id = e.1.store_id; role = some e.1.role })
            (admin (profile_of e.0 e.1) none store))

    unfoldable pub change_password : Text → ℕ → Text → Text → Text → Action (World P) (Unit {0})
    change_password salt id current new confirm = do
      throw_if (not (text_eq new confirm))
          (http_exception bad_request (codes "Passwords do not match"))
      u ← λ w. (
        on_option (err (http_exception bad_request (codes "User not found"))) ok
            (P.find_unique w.users id),
        w,
      )
      throw_if (not (bcrypt.compare current u.password))
          (http_exception bad_request (codes "Current password is invalid"))
      update_user P id (λ (r : User). record r { password = bcrypt.hash salt new })

  -- The answer to a refresh: a new access token, and the refresh token that was given.
  abbrev refreshed : ℕ → Text → Claims → Session
  refreshed now token claims = record {
    access_token = jwt.sign now claims access_lifetime;
    refresh_token = token;
    expires_in = 600;
    view = member claims.profile claims.store_id;
  }

  -- `findFirst({ where: { email } })`: of any role, at any store.
  abbrev refresh_admin : ℕ → Text → Claims → Action (World P) Session
  refresh_admin now token claims = do
    normalized ← lift (normalize_email_required claims.profile.email)
    found ← λ w. (ok (head? (P.find_many w.users (λ u. text_eq u.email normalized))), w)
    on_option (pure (refreshed now token claims))
        (λ e. do
          store ← store_of e.1
          pure (record (refreshed now token claims) {
            view = admin (profile_of e.0 e.1) (some e.1.store_id) store;
          }))
        found

  unfoldable pub refresh_access_token : ℕ → Text → Action (World P) Session
  refresh_access_token now token =
      try_catch
        (do
          claims ← lift (on_option (err invalid_login) ok (jwt.verify now token))
          if is_admin_claim claims.role
              then refresh_admin now token claims
              else pure (refreshed now token claims))
        (λ _. throw (http_exception unauthorized (codes "Invalid or expired refresh token")))
