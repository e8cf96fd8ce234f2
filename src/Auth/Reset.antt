-- ===== src/Auth/Reset.antt =====
-- `forgotPassword`, `verifyCode` and `resetPassword`.
pub mod Codes
pub mod Laws
use recharge_plataform_api.Prelude.{
  ℕ, ◌+◌, ◌*◌, Bool, true, false, ◌||◌, not, Option, none, some, ltb, map_option,
}
use recharge_plataform_api.Prelude.Text.{Text, codes, text_eq}
use recharge_plataform_api.Prisma.{Prisma}
use recharge_plataform_api.Schema.{User, Store, password_reset, is_same_text}
use recharge_plataform_api.Database.{
  World, Action, Error, http_exception, bad_request, pure, throw_if, on_option, ◌>>=◌, ◌>>◌,
}
use recharge_plataform_api.Bigo.Service.{lift, is_blank}
use recharge_plataform_api.Utils.Email.{normalize_email_required}
use recharge_plataform_api.Email.{SendOutcome, send_email}
use recharge_plataform_api.Auth.Session.{
  Bcrypt, Jwt, Session, member_session, random_code, require_user, update_users,
}

abbrev pub bad : Text → Error
bad message = http_exception bad_request message

abbrev pub no_user : Error
no_user = bad (codes "User with this email does not exist")

abbrev pub is_absent : Option ℕ → Bool
is_absent none = true
is_absent (some t) = false

-- `new Date() > expires`
abbrev pub is_over : ℕ → Option ℕ → Bool
is_over now expires = on_option false (λ t. ltb t now) expires

-- The code that the user asked for, valid for ten minutes.
abbrev pub with_reset_code : ℕ → Text → User → User
with_reset_code now code u = record u {
  reset_password_code = some code;
  reset_password_expires = some (now + 10 * 60 * 1000);
}

-- The new password, with the code cleared.
abbrev pub with_password : Text → User → User
with_password hashed u = record u {
  password = hashed;
  reset_password_code = none;
  reset_password_expires = none;
}

module _ (P : Prisma) where
  -- The domain of the store, if the store is there.
  abbrev pub domain_of : ℕ → World P → Option Text
  domain_of store w = map_option (λ (s : Store). s.domain) (P.find_unique w.stores store)

  unfoldable pub forgot_password : SendOutcome → ℕ → ℕ → Text → ℕ → Action (World P) (Unit {0})
  forgot_password sending now random email store = do
    normalized ← lift (normalize_email_required email)
    e ← require_user P no_user normalized store
    throw_if (not e.1.email_verified) (bad (codes "Email not verified"))
    let code : Text = random_code random
    update_users P normalized store (with_reset_code now code)
    λ w.
        send_email P sending
          (record {
            to = normalized;
            subject = codes "Redefinição de Senha";
            html = password_reset code (domain_of store w);
          })
          w

  -- The checks on the code of a user, which `verifyCode` and `resetPassword` spell out alike.
  abbrev pub check_reset_code : ℕ → Text → User → Action (World P) (Unit {0})
  check_reset_code now code u = do
    throw_if (is_blank u.reset_password_code || is_absent u.reset_password_expires)
        (bad (codes "No reset code found or code has expired"))
    throw_if (not (is_same_text u.reset_password_code (some code)))
        (bad (codes "Invalid reset code"))
    throw_if (is_over now u.reset_password_expires) (bad (codes "Reset code has expired"))

  unfoldable pub verify_code : ℕ → Text → Text → ℕ → Action (World P) (Unit {0})
  verify_code now email code store = do
    normalized ← lift (normalize_email_required email)
    e ← require_user P no_user normalized store
    check_reset_code now code e.1

  -- The user is looked up by the normal form, but changed and read again by the address as given.
  unfoldable pub reset_password :
      Jwt → Bcrypt → Text → ℕ → Text → Text → Text → Text → ℕ → Action (World P) Session
  reset_password jwt bcrypt salt now email code password confirm store = do
    normalized ← lift (normalize_email_required email)
    throw_if (not (text_eq password confirm)) (bad (codes "Passwords do not match"))
    e ← require_user P no_user normalized store
    check_reset_code now code e.1
    update_users P email store (with_password (bcrypt.hash salt password))
    updated ← require_user P (bad (codes "User not found after password reset")) email store
    pure (member_session jwt now updated.0 updated.1)
