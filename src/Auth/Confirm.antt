-- ===== src/Auth/Confirm.antt =====
-- `verifyEmail`, `resendEmailConfirmation`, `requestEmailChange` and `confirmEmailChange`.
pub mod Laws
use recharge_plataform_api.Prelude.{
  ℕ, ◌+◌, ◌*◌, Bool, true, false, ◌||◌, not, Option, none, some, ◌∷◌, ltb,
}
use recharge_plataform_api.Prelude.Text.{Text, codes}
use recharge_plataform_api.Prisma.{Prisma}
use recharge_plataform_api.Schema.{User, Store, email_confirmation, email_change, is_same_text}
use recharge_plataform_api.Database.{
  World, Action, Error, ok, err, pure, throw_if, on_option, ◌>>=◌, ◌>>◌,
}
use recharge_plataform_api.Bigo.Service.{lift, is_blank}
use recharge_plataform_api.Utils.Email.{normalize_email_required}
use recharge_plataform_api.Email.{SendOutcome, send_email}
use recharge_plataform_api.Auth.Session.{
  Jwt, Session, member_session, random_code, find_user, require_user, update_users, update_user,
}
use recharge_plataform_api.Auth.Reset.{bad, no_user, is_absent, is_over, domain_of}

abbrev pub as_verified : User → User
as_verified u = record u {
  email_verified = true;
  email_confirmation_code = none;
  email_confirmation_expires = none;
}

abbrev pub with_confirmation_code : ℕ → Text → User → User
with_confirmation_code expires code u = record u {
  email_confirmation_code = some code;
  email_confirmation_expires = some expires;
}

abbrev pub with_email : Text → User → User
with_email email u = record u {
  email = email;
  email_confirmation_code = none;
  email_confirmation_expires = none;
}

pub in_use : Error
in_use = bad (codes "New email is already in use")

module _ (P : Prisma) where
  -- `this.sseService.notifyEmailVerified(user.email, …)`: the subject emits an event.
  abbrev notify_email_verified : Text → Action (World P) (Unit {0})
  notify_email_verified email w = (ok tt, record w { verified_events = email ∷ w.verified_events })

  -- The answer holds the user as it was read before the update.
  unfoldable pub verify_email : Jwt → ℕ → Text → Text → ℕ → Action (World P) Session
  verify_email jwt now email code store = do
    normalized ← lift (normalize_email_required email)
    e ← require_user P no_user normalized store
    throw_if e.1.email_verified (bad (codes "Email is already verified"))
    throw_if (is_blank e.1.email_confirmation_code) (bad (codes "No confirmation code found"))
    throw_if (not (is_same_text e.1.email_confirmation_code (some code)))
        (bad (codes "Invalid confirmation code"))
    throw_if (is_over now e.1.email_confirmation_expires)
        (bad (codes "Confirmation code has expired"))
    update_users P normalized store as_verified
    notify_email_verified e.1.email
    pure (member_session jwt now e.0 e.1)

  -- `setHours(getHours() + 24)`, on a server without daylight saving.
  unfoldable pub resend_email_confirmation :
      SendOutcome → ℕ → ℕ → Text → ℕ → Action (World P) (Unit {0})
  resend_email_confirmation sending now random email store = do
    normalized ← lift (normalize_email_required email)
    e ← require_user P no_user normalized store
    throw_if e.1.email_verified (bad (codes "Email is already verified"))
    let code : Text = random_code random
    update_users P normalized store (with_confirmation_code (now + 24 * 60 * 60 * 1000) code)
    s ← λ w. (on_option (err (bad (codes "Store not found"))) ok (P.find_unique w.stores store), w)
    send_email P sending (record {
      to = normalized;
      subject = codes "Confirme seu cadastro - Novo código";
      html = email_confirmation code e.1.name s.domain store;
    })

  -- `if (existingNewEmail) throw`
  abbrev require_unused : Text → ℕ → Action (World P) (Unit {0})
  require_unused email store w =
      (on_option (ok tt) (λ _. err in_use) (find_user P email store w), w)

  unfoldable pub request_email_change :
      SendOutcome → ℕ → ℕ → Text → Text → ℕ → Action (World P) (Unit {0})
  request_email_change sending now random current new store = do
    normalized ← lift (normalize_email_required current)
    normalized_new ← lift (normalize_email_required new)
    e ← require_user P no_user normalized store
    throw_if (not e.1.email_verified) (bad (codes "Email not verified"))
    require_unused normalized_new store
    let code : Text = random_code random
    update_user P e.0 (with_confirmation_code (now + 10 * 60 * 1000) code)
    λ w.
        send_email P sending
          (record {
            to = normalized_new;
            subject = codes "Confirme a alteração de e-mail";
            html = email_change code (domain_of P store w);
          })
          w

  -- The checks of `confirmEmailChange` on the user that it found.
  unfoldable pub check_change_code : ℕ → Text → User → Action (World P) (Unit {0})
  check_change_code now code u = do
    throw_if (not u.email_verified) (bad (codes "Email not verified"))
    throw_if (is_blank u.email_confirmation_code || is_absent u.email_confirmation_expires)
        (bad (codes "No confirmation code found or code has expired"))
    throw_if (not (is_same_text u.email_confirmation_code (some code)))
        (bad (codes "Invalid confirmation code"))
    throw_if (is_over now u.email_confirmation_expires)
        (bad (codes "Confirmation code has expired"))

  unfoldable pub confirm_email_change : ℕ → Text → Text → Text → ℕ → Action (World P) (Unit {0})
  confirm_email_change now current new code store = do
    normalized ← lift (normalize_email_required current)
    normalized_new ← lift (normalize_email_required new)
    e ← require_user P no_user normalized store
    check_change_code now code e.1
    require_unused normalized_new store
    update_user P e.0 (with_email normalized_new)
