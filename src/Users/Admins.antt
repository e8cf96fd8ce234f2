-- ===== src/Users/Admins.antt =====
-- One reseller admin for each address, across the stores.
use recharge_plataform_api.Prelude.{
  ℕ, ◌≡◌, inl, inr, sym, ap, ◌∙◌, true, false, none, some, List, head?, ◌==◌, Bool-cases, ==→eq,
}
use recharge_plataform_api.Prelude.Text.{Text, text_eq_self}
use recharge_plataform_api.Prisma.{Prisma}
use recharge_plataform_api.Schema.{User, reseller_admin}
use recharge_plataform_api.Database.{World, Result, ok, err, Error}
use recharge_plataform_api.Database.Laws.{head-none, row_after}
use recharge_plataform_api.Email.{SendOutcome}
use recharge_plataform_api.Auth.Lookup.{EmailsUnique}
use recharge_plataform_api.Users.{
  is_reseller_admin, is_admin_elsewhere, with_role, promote_to_admin,
}
use recharge_plataform_api.Users.Laws.{AdminsUnique, promoted}

thrown :
    {A S : Type 0} {x : Error} {a : A} {s t : S} → ◌≡◌ {A = Result A × S} (err x, s) (ok a, t) → ⊥
thrown h = cc h

same_state : {A S : Type 0} {a b : A} {s t : S} → ◌≡◌ {A = Result A × S} (ok a, s) (ok b, t) → s ≡ t
same_state h = ap (λ r. r.1) h

elsewhere :
    (P : Prisma) (v : User) (email : Text) (store : ℕ)
    → is_reseller_admin v.role ≡ true
    → v.email ≡ email
    → (v.store_id == store) ≡ false
    → is_admin_elsewhere P email store v ≡ true
elsewhere P v email store admin by apart = rw (← by, text_eq_self v.email, admin, apart)

module _ (P : Prisma) (t : P.Table User) (id store : ℕ) (u : User)
    (there : P.find_unique t id ≡ some u) (here : (u.store_id == store) ≡ true)
    (nobody : head? (P.find_many t (is_admin_elsewhere P u.email store)) ≡ none)
    (emails : EmailsUnique P t) where
  -- An admin with the address of the user who is promoted is that user.
  only_user :
      (j : ℕ) (v : User)
      → P.find_unique t j ≡ some v
      → is_reseller_admin v.role ≡ true
      → v.email ≡ u.email
      → j ≡ id
  only_user j v at admin by = elim (Bool-cases (v.store_id == store)) [
    | inl same ↦
        emails j id v u at there by
          (==→eq v.store_id store same ∙ sym (==→eq u.store_id store here))
    | inr apart ↦ absurd (
        head-none P t (is_admin_elsewhere P u.email store) j v nobody at
          (elsewhere P v u.email store admin by apart))
  ]

  update-AdminsUnique :
      (by now : ℕ)
      → AdminsUnique P t
      → AdminsUnique P (P.update t id (with_role reseller_admin by now))
  update-AdminsUnique by now unique i j a b at_i at_j admin_a admin_b same =
      let f : User → User = with_role reseller_admin by now in
      elim (row_after P t id f i a at_i) [
        | inl (here_i, (r, there_r, ea)) ↦ elim (row_after P t id f j b at_j) [
          | inl (here_j, other) ↦ here_i ∙ sym here_j
          | inr old_j ↦
              let e : r ≡ u = cc there_r in
              here_i
              ∙ sym (
                  only_user j b old_j admin_b
                    (sym same ∙ ap (λ x. x.email) ea ∙ ap (λ x. x.email) e))
        ]
        | inr old_i ↦ elim (row_after P t id f j b at_j) [
          | inl (here_j, (r, there_r, eb)) ↦
              let e : r ≡ u = cc there_r in
              only_user i a old_i admin_a (same ∙ ap (λ x. x.email) eb ∙ ap (λ x. x.email) e)
              ∙ sym here_j
          | inr old_j ↦ unique i j a b old_i old_j admin_a admin_b same
        ]
      ]

-- A promotion that returned leaves every address with at most one reseller admin, if that was so and
-- the addresses of each store were unique.
pub promote_to_admin-AdminsUnique :
    (P : Prisma) (outcomes : List SendOutcome) (now id store by : ℕ) (w w' : World P)
    → EmailsUnique P w.users
    → AdminsUnique P w.users
    → promote_to_admin P outcomes now id store by w ≡ (ok tt, w')
    → AdminsUnique P w'.users
promote_to_admin-AdminsUnique P outcomes now id store by w w' emails unique returned =
    elim (promoted P outcomes now id store by w) [
      | inl (x, failed) ↦ absurd (thrown (sym failed ∙ returned))
      | inr (u, w2, done, there, here, nobody, written) ↦
          rw (sym (ap (λ v. v.users) (same_state (sym done ∙ returned))), written)
            (update-AdminsUnique P w.users id store u there here nobody emails by now unique)
    ]
