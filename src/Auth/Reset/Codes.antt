-- ===== src/Auth/Reset/Codes.antt =====
-- Which codes `resetPassword` takes, and what is left of a code that it took.
use recharge_plataform_api.Prelude.{
  ℕ, ◌≡◌, ◌⊎◌, refl, ◌||◌, some, inl, inr, Option-cases, Bool-cases,
}
use recharge_plataform_api.Prelude.Text.{Text, codes, text_eq_self}
use recharge_plataform_api.Prisma.{Prisma}
use recharge_plataform_api.Schema.{User, is_same_text}
use recharge_plataform_api.Database.{World, ok, err, Error}
use recharge_plataform_api.Bigo.Service.{is_blank}
use recharge_plataform_api.Utils.Email.{normalize_email_required}
use recharge_plataform_api.Auth.Session.{Bcrypt, Jwt, Session, member_session, find_user, has_email}
use recharge_plataform_api.Auth.Lookup.{
  EmailsUnique, find_user-here, find_user-found, update_many-EmailsUnique, find-update_users,
  find_user-updated,
}
use recharge_plataform_api.Auth.Reset.Laws.{after_reset}
use recharge_plataform_api.Auth.Reset.{
  bad, no_user, with_password, is_absent, is_over, check_reset_code, verify_code, reset_password,
}

module _ (P : Prisma) (jwt : Jwt) (bcrypt : Bcrypt) (salt password email : Text) (store now : ℕ)
    (code : Text) (w : World P) where
  -- The checks on a code read nothing but the user.
  code_cases :
      (u : User)
      → (check_reset_code P now code u w ≡ (ok tt, w))
        ⊎ ((x : Error) × ((v : World P) → check_reset_code P now code u v ≡ (err x, v)))
  code_cases u =
      elim (Bool-cases (is_blank u.reset_password_code || is_absent u.reset_password_expires)) [
        | inl absent ↦ inr (bad (codes "No reset code found or code has expired"), λ v. rw absent)
        | inr there ↦ elim (Bool-cases (is_same_text u.reset_password_code (some code))) [
          | inr other ↦ inr (bad (codes "Invalid reset code"), λ v. rw (there, other))
          | inl same ↦ elim (Bool-cases (is_over now u.reset_password_expires)) [
            | inl over ↦ inr (bad (codes "Reset code has expired"), λ v. rw (there, same, over))
            | inr fresh ↦ inl (rw (there, same, fresh))
          ]
        ]
      ]

  -- A reset that returns found a user and its code was taken.
  module _ (form : normalize_email_required email ≡ ok email) (s : Session) (w' : World P)
      (returned : reset_password P jwt bcrypt salt now email code password password store w
        ≡ (ok s, w')) where
    reset_found :
        (e : ℕ × User) × (find_user P email store (after_reset P bcrypt salt email password store w)
          ≡ some e)
        × (w' ≡ after_reset P bcrypt salt email password store w)
    unfolding reset_password
    reset_found = elim (Option-cases (find_user P email store w)) [
      | inl none_there ↦ cc (rw (form, text_eq_self password, none_there) at returned)
      | inr (e, found) ↦ elim (code_cases e.1) [
        | inr (y, not_taken) ↦ cc (rw (form, text_eq_self password, found, not_taken) at returned)
        | inl taken ↦
            let w1 : World P = after_reset P bcrypt salt email password store w in
            elim (Option-cases (find_user P email store w1)) [
              | inl lost ↦
                  cc (rw lost at (rw (form, text_eq_self password, found, taken) at returned))
              | inr (d, again) ↦ (
                d,
                again,
                cc (rw again at (rw (form, text_eq_self password, found, taken) at returned)),
              )
            ]
      ]
    ]

    -- After a reset for an address in normal form that returned, no code of that user is valid: at any
    -- time and for any code verifyCode answers that there is none, and changes nothing.
    pub reset-code_spent :
        (later : ℕ) (other : Text)
        → verify_code P later email other store w'
          ≡ (err (bad (codes "No reset code found or code has expired")), w')
    unfolding verify_code
    reset-code_spent later other =
        let (d, again, same) = reset_found in
        let (u, before, changed) =
          find_user-updated P w.users (with_password (bcrypt.hash salt password)) email store d
            again in
        rw (same, form, again, changed)

  -- With the password confirmed, and for an address in normal form that is unique at its store,
  -- resetPassword does what verifyCode says of the code: if verifyCode throws, it throws the same error
  -- and writes nothing; if verifyCode returns, it returns a session and has stored the new password.
  pub verify_code-reset_password :
      normalize_email_required email ≡ ok email
      → EmailsUnique P w.users
      → ((x : Error) × (verify_code P now email code store w ≡ (err x, w))
          × (reset_password P jwt bcrypt salt now email code password password store w
              ≡ (err x, w)))
        ⊎ ((s : Session) × (verify_code P now email code store w ≡ (ok tt, w))
            × (reset_password P jwt bcrypt salt now email code password password store w
                ≡ (ok s, after_reset P bcrypt salt email password store w)))
  unfolding verify_code reset_password
  verify_code-reset_password form unique = elim (Option-cases (find_user P email store w)) [
    | inl none_there ↦
        inl (no_user, rw (form, none_there), rw (form, text_eq_self password, none_there))
    | inr (e, found) ↦ elim (code_cases e.1) [
      | inr (y, not_taken) ↦
          inl (y, rw (form, found, not_taken), rw (form, text_eq_self password, found, not_taken))
      | inl taken ↦
          let f : User → User = with_password (bcrypt.hash salt password) in
          let w1 : World P = after_reset P bcrypt salt email password store w in
          let (there, by, at) = find_user-found P w email store e found in
          let again : find_user P email store w1 ≡ some (e.0, f e.1) =
            find_user-here P w1 e.0 (f e.1) email store
              (update_many-EmailsUnique P w.users (λ i v. has_email P email store v) f
                (λ v. (refl, refl)) unique)
              (find-update_users P w.users f e.0 e.1 email store there by at) by at in
          inr (
            member_session jwt now e.0 e.1,
            rw (form, found, taken),
            rw (form, text_eq_self password, found, taken) (rw again),
          )
    ]
  ]
