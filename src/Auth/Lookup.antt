-- ===== src/Auth/Lookup.antt =====
-- Finding a user by e-mail and store, and the uniqueness of that pair (`@@unique([email, storeId])`).
use recharge_plataform_api.Prelude.{
  ℕ, ◌≡◌, refl, inl, inr, arith, Bool, true, false, ◌&&◌, some, head?, if◌then◌else◌, sym, ap, ◌∙◌,
  ==→eq, Bool-cases, Option-cases,
}
use recharge_plataform_api.Prelude.Text.{Text, text_eq_self, text_eq→eq}
use recharge_plataform_api.Prisma.{Prisma}
use recharge_plataform_api.Schema.{User}
use recharge_plataform_api.Database.{World}
use recharge_plataform_api.Database.Laws.{head-find_many, head-found, row_after}
use recharge_plataform_api.Auth.Session.{has_email, find_user}

both : (a b : Bool) → (a && b) ≡ true → (a ≡ true) × (b ≡ true)
both true b h = (refl, h)
both false b h = cc h

pub has_email_iff :
    (P : Prisma) (email : Text) (store : ℕ) (u : User)
    → has_email P email store u ≡ true
    → (u.email ≡ email) × (u.store_id ≡ store)
has_email_iff P email store u h =
    let (by, at) = both _ _ h in (text_eq→eq u.email email by, ==→eq u.store_id store at)

pub has_email_self : (P : Prisma) (u : User) → has_email P u.email u.store_id u ≡ true
has_email_self P u = ground (arith, text_eq_self u.email)

pub has_email_of :
    (P : Prisma) (email : Text) (store : ℕ) (u : User)
    → u.email ≡ email
    → u.store_id ≡ store
    → has_email P email store u ≡ true
has_email_of P email store u by at = rw (← by, ← at) (has_email_self P u)

module _ (P : Prisma) where
  -- No two users of a store share an address.
  abbrev pub EmailsUnique : P.Table User → Type 0
  EmailsUnique t =
      (i j : ℕ) (u v : User)
      → P.find_unique t i ≡ some u
      → P.find_unique t j ≡ some v
      → u.email ≡ v.email
      → u.store_id ≡ v.store_id
      → i ≡ j

  -- A user that is there is the one that is found by the own address and store.
  pub find_user-here :
      (w : World P) (id : ℕ) (u : User) (email : Text) (store : ℕ)
      → EmailsUnique w.users
      → P.find_unique w.users id ≡ some u
      → u.email ≡ email
      → u.store_id ≡ store
      → find_user P email store w ≡ some (id, u)
  find_user-here w id u email store unique there by at =
      let here : has_email P email store u ≡ true = has_email_of P email store u by at in
      head-find_many P w.users (has_email P email store) id u there here λ j v found passed.
        let (by', at') = has_email_iff P email store v passed in
        unique j id v u found there (by' ∙ sym by) (at' ∙ sym at)

  pub find_user-found :
      (w : World P) (email : Text) (store : ℕ) (e : ℕ × User)
      → find_user P email store w ≡ some e
      → (P.find_unique w.users e.0 ≡ some e.1) × (e.1.email ≡ email) × (e.1.store_id ≡ store)
  find_user-found w email store e h =
      let (there, passed) = head-found P w.users (has_email P email store) e h in
      let (by, at) = has_email_iff P email store e.1 passed in (there, by, at)

  -- A row of a changed table and the row that it was.
  row_before :
      (t : P.Table User) (p : ℕ → User → Bool) (f : User → User) (j : ℕ) (v : User)
      → P.find_unique (P.update_many t p f) j ≡ some v
      → (u : User) × (P.find_unique t j ≡ some u) × (v ≡ (if p j u then f u else u))
  row_before t p f j v h = elim (Option-cases (P.find_unique t j)) [
    | inl gone ↦ ground (arith, P.find-update_many t p f j)
    | inr (u, there) ↦ (u, there, ground (arith, P.find-update_many t p f j))
  ]

  -- A change of users that keeps addresses and stores keeps them unique.
  pub update_many-EmailsUnique :
      (t : P.Table User) (p : ℕ → User → Bool) (f : User → User)
      → ((u : User) → ((f u).email ≡ u.email) × ((f u).store_id ≡ u.store_id))
      → EmailsUnique t
      → EmailsUnique (P.update_many t p f)
  update_many-EmailsUnique t p f keeps unique i j u v at_i at_j =
      let (a, there_a, ea) = row_before t p f i u at_i in
      let (b, there_b, eb) = row_before t p f j v at_j in
      λ by at.
        unique i j a b there_a there_b (sym (kept_email i a u ea) ∙ by ∙ kept_email j b v eb)
          (sym (kept_store i a u ea) ∙ at ∙ kept_store j b v eb)
    where
      kept_email : (k : ℕ) (a c : User) → c ≡ (if p k a then f a else a) → c.email ≡ a.email
      kept_email k a c e = ground (arith, keeps a)

      kept_store : (k : ℕ) (a c : User) → c ≡ (if p k a then f a else a) → c.store_id ≡ a.store_id
      kept_store k a c e = ground (arith, keeps a)

  -- The user that was looked up, after `updateMany` by the same address and store.
  pub find-update_users :
      (t : P.Table User) (f : User → User) (id : ℕ) (u : User) (email : Text) (store : ℕ)
      → P.find_unique t id ≡ some u
      → u.email ≡ email
      → u.store_id ≡ store
      → P.find_unique (P.update_many t (λ i v. has_email P email store v) f) id ≡ some (f u)
  find-update_users t f id u email store there by at =
      let here : has_email P email store u ≡ true = has_email_of P email store u by at in
      P.find-update_many t (λ i v. has_email P email store v) f id ∙ rw (there, here)

  -- A user that is found by the address and store of an `updateMany` was changed by it.
  pub find_user-updated :
      (t : P.Table User) (f : User → User) (email : Text) (store : ℕ) (d : ℕ × User)
      → head? (
          P.find_many
            (P.update_many t (λ i v. has_email P email store v) f)
            (has_email P email store))
        ≡ some d
      → (u : User) × (P.find_unique t d.0 ≡ some u) × (d.1 ≡ f u)
  find_user-updated t f email store d h =
      let p : ℕ → User → Bool = λ i v. has_email P email store v in
      let (there, passed) = head-found P (P.update_many t p f) (has_email P email store) d h in
      let (u, before, changed) = row_before t p f d.0 d.1 there in
      elim (Bool-cases (has_email P email store u)) [
        | inl matched ↦ (u, before, rw matched at changed)
        | inr other ↦
            let kept : d.1 ≡ u = rw other at changed in
            cc (sym passed ∙ ap (has_email P email store) kept ∙ other)
      ]

  -- A change of one user's address to one that no user of the store has keeps them unique.
  pub update-EmailsUnique :
      (t : P.Table User) (id : ℕ) (f : User → User) (u : User)
      → P.find_unique t id ≡ some u
      → (f u).store_id ≡ u.store_id
      → ((j : ℕ) (v : User)
          → P.find_unique t j ≡ some v
          → v.email ≡ (f u).email
          → v.store_id ≡ u.store_id
          → ⊥)
      → EmailsUnique t
      → EmailsUnique (P.update t id f)
  update-EmailsUnique t id f u there keeps free unique i j a b at_i at_j by at =
      elim (row_after P t id f i a at_i) [
        | inl (here_i, (r, there_r, ea)) ↦ elim (row_after P t id f j b at_j) [
          | inl (here_j, other) ↦ here_i ∙ sym here_j
          | inr old_j ↦
              let same : a ≡ f u = cc there_r in
              absurd (
                free j b old_j (sym by ∙ ap (λ x. x.email) same)
                  (sym at ∙ ap (λ x. x.store_id) same ∙ keeps))
        ]
        | inr old_i ↦ elim (row_after P t id f j b at_j) [
          | inl (here_j, (r, there_r, eb)) ↦
              let same : b ≡ f u = cc there_r in
              absurd (
                free i a old_i (by ∙ ap (λ x. x.email) same)
                  (at ∙ ap (λ x. x.store_id) same ∙ keeps))
          | inr old_j ↦ unique i j a b old_i old_j by at
        ]
      ]
