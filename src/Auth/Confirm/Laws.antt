-- ===== src/Auth/Confirm/Laws.antt =====
-- The change of an address: it stays unique at the store, and what its code is bound to.
use recharge_plataform_api.Prelude.{
  ℕ, ◌≡◌, ◌⊎◌, refl, ◌||◌, none, some, sym, ap, ◌∙◌, inl, inr, Option-cases, Bool-cases,
}
use recharge_plataform_api.Prelude.Text.{Text, codes}
use recharge_plataform_api.Prisma.{Prisma}
use recharge_plataform_api.Schema.{User, is_same_text}
use recharge_plataform_api.Database.{World, Result, ok, err, Error}
use recharge_plataform_api.Database.Laws.{head-none}
use recharge_plataform_api.Bigo.Service.{is_blank}
use recharge_plataform_api.Utils.Email.{normalize_email_required}
use recharge_plataform_api.Auth.Session.{find_user, has_email}
use recharge_plataform_api.Auth.Lookup.{
  EmailsUnique, find_user-found, has_email_of, update-EmailsUnique,
}
use recharge_plataform_api.Auth.Reset.{bad, no_user, is_absent, is_over}
use recharge_plataform_api.Auth.Confirm.{
  with_email, in_use, check_change_code, confirm_email_change,
}

thrown :
    {A S : Type 0} {x : Error} {a : A} {s t : S} → ◌≡◌ {A = Result A × S} (err x, s) (ok a, t) → ⊥
thrown h = cc h

module _ (P : Prisma) (now : ℕ) (code current email : Text) (store : ℕ)
    (form : normalize_email_required current ≡ ok email) where
  -- The checks on a code read nothing but the user.
  change_code_cases :
      (u : User)
      → ((w : World P) → check_change_code P now code u w ≡ (ok tt, w))
        ⊎ ((x : Error) × ((w : World P) → check_change_code P now code u w ≡ (err x, w)))
  unfolding check_change_code
  change_code_cases u = elim (Bool-cases u.email_verified) [
    | inr unverified ↦ inr (bad (codes "Email not verified"), λ w. rw unverified)
    | inl verified ↦
        elim (Bool-cases
          (is_blank u.email_confirmation_code || is_absent u.email_confirmation_expires)) [
            | inl absent ↦ inr (
              bad (codes "No confirmation code found or code has expired"),
              λ w. rw (verified, absent),
            )
            | inr there ↦ elim (Bool-cases (is_same_text u.email_confirmation_code (some code))) [
              | inr other ↦
                  inr (bad (codes "Invalid confirmation code"), λ w. rw (verified, there, other))
              | inl same ↦ elim (Bool-cases (is_over now u.email_confirmation_expires)) [
                | inl over ↦ inr (
                  bad (codes "Confirmation code has expired"),
                  λ w. rw (verified, there, same, over),
                )
                | inr fresh ↦ inl (λ w. rw (verified, there, same, fresh))
              ]
            ]
          ]
  ]

  module _ (new n : Text) (w : World P) (form_new : normalize_email_required new ≡ ok n) where
    no_account :
        find_user P email store w ≡ none
        → confirm_email_change P now current new code store w ≡ (err no_user, w)
    unfolding confirm_email_change
    no_account none_there = rw (form, form_new, none_there)

    refused_code :
        (e : ℕ × User) (x : Error)
        → find_user P email store w ≡ some e
        → check_change_code P now code e.1 w ≡ (err x, w)
        → confirm_email_change P now current new code store w ≡ (err x, w)
    unfolding confirm_email_change
    refused_code e x found refused = rw (form, form_new, found, refused)

    used_address :
        (e d : ℕ × User)
        → find_user P email store w ≡ some e
        → check_change_code P now code e.1 w ≡ (ok tt, w)
        → find_user P n store w ≡ some d
        → confirm_email_change P now current new code store w ≡ (err in_use, w)
    unfolding confirm_email_change
    used_address e d found passed used = rw (form, form_new, found, passed) (rw used)

    changed :
        (e : ℕ × User)
        → find_user P email store w ≡ some e
        → check_change_code P now code e.1 w ≡ (ok tt, w)
        → find_user P n store w ≡ none
        → confirm_email_change P now current new code store w
          ≡ (ok tt, record w { users = P.update w.users e.0 (with_email n) })
    unfolding confirm_email_change
    changed e found passed unused = rw (form, form_new, found, passed) (rw unused)

    -- What a call that returned has found and written.
    confirmed :
        (w' : World P)
        → confirm_email_change P now current new code store w ≡ (ok tt, w')
        → (e : ℕ × User) × (find_user P email store w ≡ some e)
          × (check_change_code P now code e.1 w ≡ (ok tt, w))
          × (find_user P n store w ≡ none)
          × (w' ≡ record w { users = P.update w.users e.0 (with_email n) })
    confirmed w' returned = elim (Option-cases (find_user P email store w)) [
      | inl none_there ↦ absurd (thrown (sym (no_account none_there) ∙ returned))
      | inr (e, found) ↦ elim (change_code_cases e.1) [
        | inr (x, refused) ↦ absurd (thrown (sym (refused_code e x found (refused w)) ∙ returned))
        | inl passed ↦ elim (Option-cases (find_user P n store w)) [
          | inr (d, used) ↦
              absurd (thrown (sym (used_address e d found (passed w) used) ∙ returned))
          | inl unused ↦ (
            e,
            found,
            passed w,
            unused,
            ap (λ r. r.1) (sym returned ∙ changed e found (passed w) unused),
          )
        ]
      ]
    ]

  -- The code that was mailed to one new address confirms any other address that is free at the store: if
  -- the call with the address `new` returns, so does the call with `other`, and it stores `other`.
  pub confirm_email_change_any :
      (new n other o : Text) (w w' : World P)
      → normalize_email_required new ≡ ok n
      → confirm_email_change P now current new code store w ≡ (ok tt, w')
      → normalize_email_required other ≡ ok o
      → find_user P o store w ≡ none
      → (e : ℕ × User) × (find_user P email store w ≡ some e)
        × (confirm_email_change P now current other code store w
            ≡ (ok tt, record w { users = P.update w.users e.0 (with_email o) }))
  confirm_email_change_any new n other o w w' form_new returned form_other free =
      let (e, found, passed, unused, same) = confirmed new n w form_new w' returned in
      (e, found, changed other o w form_other e found passed free)

  -- A change of address that returned leaves the addresses of every store unique, if they were.
  pub confirm_email_change-EmailsUnique :
      (new n : Text) (w w' : World P)
      → normalize_email_required new ≡ ok n
      → EmailsUnique P w.users
      → confirm_email_change P now current new code store w ≡ (ok tt, w')
      → EmailsUnique P w'.users
  confirm_email_change-EmailsUnique new n w w' form_new unique returned =
      let (e, found, passed, unused, same) = confirmed new n w form_new w' returned in
      let (there, by, at) = find_user-found P w email store e found in
      rw same (
        update-EmailsUnique P w.users e.0 (with_email n) e.1 there refl
          (λ j v other by' at'.
            head-none P w.users (has_email P n store) j v unused other
              (has_email_of P n store v by' (at' ∙ at)))
          unique)
