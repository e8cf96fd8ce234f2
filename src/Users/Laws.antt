-- ===== src/Users/Laws.antt =====
-- Mailing with retries, and the promotion of an admin.
use recharge_plataform_api.Prelude.{
  ℕ, zero, suc, ◌≡◌, ◌⊎◌, refl, inl, inr, Bool, true, false, none, some, List, [], ◌∷◌, keep,
  length, head?, ◌==◌, if◌then◌else◌, Option-cases, Bool-cases,
}
use recharge_plataform_api.Prelude.Text.{codes}
use recharge_plataform_api.Prisma.{Prisma}
use recharge_plataform_api.Schema.{User, Mail, reseller_admin, admin_promotion}
use recharge_plataform_api.Database.{World, ok, err, Error, on_option}
use recharge_plataform_api.Email.{SendOutcome, mail_sent, mail_refused, mail_thrown}
use recharge_plataform_api.Auth.Reset.{bad}
use recharge_plataform_api.Users.{
  send_email_with_retry, is_reseller_admin, is_plain_user, is_admin_elsewhere, with_role,
  promote_to_admin,
}

-- Whether the call of the provider comes back, with a mail taken or with an error.
abbrev pub comes_back : SendOutcome → Bool
comes_back mail_sent = true
comes_back (mail_refused e) = true
comes_back (mail_thrown e) = false

abbrev pub is_sent : SendOutcome → Bool
is_sent mail_sent = true
is_sent (mail_refused e) = false
is_sent (mail_thrown e) = false

module _ (P : Prisma) where
  -- Where an outcome is given for each of the attempts, sendEmailWithRetry stops at the first attempt
  -- that does not throw and returns true, whether the provider took the mail there or refused it; the mail
  -- is sent exactly if it was taken there. If all attempts throw, it returns false and changes nothing.
  pub send_email_with_retry_lem :
      (outcomes : List SendOutcome) (mail : Mail) (w : World P)
      → send_email_with_retry P (length outcomes) outcomes mail w
        ≡ on_option
            (false, w)
            (λ (o : SendOutcome).
              (true, if is_sent o then record w { outbox = mail ∷ w.outbox } else w))
            (head? (keep comes_back outcomes))
  unfolding send_email_with_retry
  send_email_with_retry_lem [] mail w = refl
  send_email_with_retry_lem (mail_sent ∷ outcomes) mail w = refl
  send_email_with_retry_lem (mail_refused e ∷ outcomes) mail w = refl
  send_email_with_retry_lem (mail_thrown e ∷ outcomes) mail w =
      send_email_with_retry_lem outcomes mail w

  users_kept :
      (left : ℕ) (outcomes : List SendOutcome) (mail : Mail) (w : World P)
      → (send_email_with_retry P left outcomes mail w).1.users ≡ w.users
  unfolding send_email_with_retry
  users_kept zero outcomes mail w = refl
  users_kept (suc left) [] mail w = refl
  users_kept (suc left) (mail_sent ∷ outcomes) mail w = refl
  users_kept (suc left) (mail_refused e ∷ outcomes) mail w = refl
  users_kept (suc left) (mail_thrown e ∷ outcomes) mail w = users_kept left outcomes mail w

  module _ (outcomes : List SendOutcome) (now id store by : ℕ) (w : World P) where
    -- What a promotion finds and writes, or the error that it throws.
    pub promoted :
        ((x : Error) × (promote_to_admin P outcomes now id store by w ≡ (err x, w)))
        ⊎ ((u : User) × (w' : World P) × (promote_to_admin P outcomes now id store by w
              ≡ (ok tt, w'))
            × (P.find_unique w.users id ≡ some u)
            × ((u.store_id == store) ≡ true)
            × (head? (P.find_many w.users (is_admin_elsewhere P u.email store)) ≡ none)
            × (w'.users ≡ P.update w.users id (with_role reseller_admin by now)))
    unfolding promote_to_admin
    promoted = elim (Option-cases (P.find_unique w.users id)) [
      | inl gone ↦ inl (bad (codes "User not found"), rw gone)
      | inr (u, there) ↦ elim (Bool-cases (u.store_id == store)) [
        | inr foreign ↦
            inl (bad (codes "Cannot promote users from different stores"), rw (there, foreign))
        | inl here ↦ elim (Bool-cases (is_plain_user u.role)) [
          | inr no_user ↦ inl (bad (codes "User is already an admin"), rw (there, here, no_user))
          | inl plain ↦
              elim (Option-cases
                (head? (P.find_many w.users (is_admin_elsewhere P u.email store)))) [
                  | inr (e, other) ↦ inl (
                    bad (codes "This email is already an administrator in another store"),
                    rw (there, here, plain) (rw other),
                  )
                  | inl nobody ↦
                      let w2 : World P = record w {
                        users = P.update w.users id (with_role reseller_admin by now);
                      } in
                      elim (Option-cases (P.find_unique w.stores store)) [
                        | inl closed ↦ inr (
                          u,
                          w2,
                          rw (there, here, plain) (rw (nobody, there, closed)),
                          there,
                          here,
                          nobody,
                          refl,
                        )
                        | inr (s, at) ↦
                            let mail : Mail = record {
                              to = u.email;
                              subject = codes "Você foi promovido a Administrador";
                              html = admin_promotion u.name s.name now s.domain;
                            } in
                            inr (
                              u,
                              (send_email_with_retry P 3 outcomes mail w2).1,
                              rw (there, here, plain) (rw (nobody, there, at)),
                              there,
                              here,
                              nobody,
                              users_kept 3 outcomes mail w2,
                            )
                      ]
                ]
        ]
      ]
    ]

  -- No address belongs to two reseller admins (at any stores).
  abbrev pub AdminsUnique : P.Table User → Type 0
  AdminsUnique t =
      (i j : ℕ) (u v : User)
      → P.find_unique t i ≡ some u
      → P.find_unique t j ≡ some v
      → is_reseller_admin u.role ≡ true
      → is_reseller_admin v.role ≡ true
      → u.email ≡ v.email
      → i ≡ j
