-- ===== src/Users/Cleanup/Laws.antt =====
-- Whom the cleanup deletes, and that it expires the orders that `checkAndExpireOrders` does.
use recharge_plataform_api.Prelude.{
  ℕ, ◌-◌, ◌*◌, ◌<◌, ◌≤◌, ◌⊎◌, Option-cases, ◌≡◌, refl, inl, inr, sym, ap, ◌∙◌, arith, Bool, true,
  false, ◌&&◌, ◌||◌, not, Option, none, some, List, [], ◌∷◌, any, HasRow, map_option, keep_option,
  ◌==◌, ltb, if◌then◌else◌, Bool-cases, ==→eq, ==_self,
}
use recharge_plataform_api.Prisma.{Prisma}
use recharge_plataform_api.Utils.Calendar.{Calendar}
use recharge_plataform_api.Schema.{User, Order}
use recharge_plataform_api.Database.{World}
use recharge_plataform_api.Order.Expiry.{
  as_expired, expires, check_and_expire_orders, is_created, has_pending_payment,
}
use recharge_plataform_api.Users.Cleanup.{
  is_abandoned, is_unpaid, delete_found, cleanup_unverified_users, expire_each,
  expire_unpaid_orders,
}

no_filters : (a b c : Bool) → (a && (b && (c && (true && (true && true))))) ≡ (a && (b && c))
no_filters a b c = ground arith

listed :
    {R : Type 0} (rows : List (ℕ × R)) (id : ℕ) (r : R)
    → HasRow id r rows
    → any (λ (e : ℕ × R). e.0 == id) rows ≡ true
listed [] id r h = absurd h
listed ((j, s) ∷ rows) id r (inl (here, same)) = rw (here, ==_self) refl
listed ((j, s) ∷ rows) id r (inr h) = ground (arith, listed rows id r h)

from_list :
    {R : Type 0} (rows : List (ℕ × R)) (id : ℕ)
    → any (λ (e : ℕ × R). e.0 == id) rows ≡ true
    → (r : R) × HasRow id r rows
from_list [] id h = cc h
from_list ((j, s) ∷ rows) id h = elim (Bool-cases (j == id)) [
  | inl here ↦ (s, inl (sym (==→eq j id here), refl))
  | inr other ↦ let (r, m) = from_list rows id (rw other at h) in (r, inr m)
]

module _ (P : Prisma) where
  cleanup-keep :
      (now : ℕ) (w : World P) (id : ℕ)
      → P.find_unique (cleanup_unverified_users P now w).users id
        ≡ keep_option (λ u. not (is_abandoned now u)) (P.find_unique w.users id)
  unfolding cleanup_unverified_users delete_found
  cleanup-keep now w id =
      go (P.find_many w.users (is_abandoned now))
        (P.find_many_complete w.users (is_abandoned now) id)
    where
      stays :
          (o : Option User)
          → ((r : User) → o ≡ some r → is_abandoned now r ≡ true → ⊥)
          → o ≡ keep_option (λ u. not (is_abandoned now u)) o
      stays none nobody = refl
      stays (some u) nobody = elim (Bool-cases (is_abandoned now u)) [
        | inl abandoned ↦ absurd (nobody u refl abandoned)
        | inr kept ↦ rw kept
      ]

      go :
          (rows : List (ℕ × User))
          → ((r : User)
              → P.find_unique w.users id ≡ some r
              → is_abandoned now r ≡ true
              → HasRow id r rows)
          → P.find_unique (delete_found P rows now w).users id
            ≡ keep_option (λ u. not (is_abandoned now u)) (P.find_unique w.users id)
      go [] complete = stays (P.find_unique w.users id) complete
      go (e ∷ es) complete = P.find-delete_many w.users (is_abandoned now) id

  -- A user that is not verified and whose confirmation has an end before the present is deleted by the
  -- cleanup. A user that is verified, or whose confirmation has no end or one that is not past, stays
  -- as it was.
  pub cleanup_unverified_users_lem :
      (now : ℕ) (w : World P) (id : ℕ) (u : User)
      → P.find_unique w.users id ≡ some u
      → ((u.email_verified ≡ false)
          × (t : ℕ) × (u.email_confirmation_expires ≡ some t)
          × (t < now)
          × (P.find_unique (cleanup_unverified_users P now w).users id ≡ none))
        ⊎ (((u.email_verified ≡ true)
              ⊎ (u.email_confirmation_expires ≡ none)
              ⊎ ((t : ℕ) × (u.email_confirmation_expires ≡ some t) × (now ≤ t)))
            × (P.find_unique (cleanup_unverified_users P now w).users id ≡ some u))
  cleanup_unverified_users_lem now w id u there =
      let after = rw there at (cleanup-keep now w id) in
      elim (Bool-cases u.email_verified) [
        | inl verified ↦ inr (inl verified, after ∙ rw verified)
        | inr unverified ↦ elim (Option-cases u.email_confirmation_expires) [
          | inl endless ↦ inr (inr (inl endless), after ∙ rw (unverified, endless))
          | inr (t, ends) ↦ elim (Bool-cases (ltb t now)) [
            | inl past ↦
                inl (unverified, t, ends, ground arith, after ∙ rw (unverified, ends, past))
            | inr later ↦
                inr (inr (inr (t, ends, ground arith)), after ∙ rw (unverified, ends, later))
          ]
        ]
      ]

  expire_each-row :
      (rows : List (ℕ × Order)) (w : World P) (id : ℕ)
      → P.find_unique (expire_each P rows w).orders id ≡ (
          if any (λ (e : ℕ × Order). e.0 == id) rows
          then map_option as_expired (P.find_unique w.orders id)
          else P.find_unique w.orders id)
  unfolding expire_each
  expire_each-row [] w id = refl
  expire_each-row ((i, o) ∷ rows) w id =
      let w1 : World P = record w { orders = P.update w.orders i as_expired } in
      expire_each-row rows w1 id
      ∙ merged (i == id) (any (λ (e : ℕ × Order). e.0 == id) rows) (P.find_unique w.orders id)
          (P.find-update w.orders i as_expired id)
    where
      merged :
          (here later : Bool) (old : Option Order) {new : Option Order}
          → new ≡ (if here then map_option as_expired old else old)
          → (if later then map_option as_expired new else new)
            ≡ (if here || later then map_option as_expired old else old)
      merged true true none e = rw e
      merged true true (some r) e = rw e
      merged true false old e = rw e
      merged false later old e = rw e

  -- `expireUnpaidOrders` leaves every order as `checkAndExpireOrders` without filters does.
  pub expire_unpaid-check_and_expire :
      (calendar : Calendar) (now hours : ℕ) (w : World P) (id : ℕ)
      → P.find_unique (expire_unpaid_orders P calendar now hours w).orders id
        ≡ P.find_unique (check_and_expire_orders P calendar none [] none now hours w).1.orders id
  unfolding expire_unpaid_orders check_and_expire_orders
  expire_unpaid-check_and_expire calendar now hours w id =
      let test : Order → Bool = is_unpaid P calendar now hours w in
      let filtered : ℕ → Order → Bool = expires P calendar none [] none now hours w in
      let rows : List (ℕ × Order) = P.find_many w.orders test in
      one_order (P.find_unique w.orders id) rows test filtered id
        (λ o.
          no_filters (is_created o.order_status) (has_pending_payment P calendar w o.payment_id)
            (ltb o.created_at (now - hours * 60 * 60 * 1000)))
        (P.find_many_complete w.orders test id) (P.find_many_sound w.orders test id)
        (expire_each-row rows w id) (P.find-update_many w.orders filtered as_expired id)
    where
      clash : (b : Bool) → b ≡ false → b ≡ true → ⊥
      clash b f t = cc f

      one_order :
          (old : Option Order) (rows : List (ℕ × Order)) (test : Order → Bool)
          (filtered : ℕ → Order → Bool) (id : ℕ) {left right : Option Order}
          → ((o : Order) → filtered id o ≡ test o)
          → ((o : Order) → old ≡ some o → test o ≡ true → HasRow id o rows)
          → ((o : Order) → HasRow id o rows → (old ≡ some o) × (test o ≡ true))
          → left
            ≡ (if any (λ (e : ℕ × Order). e.0 == id) rows then map_option as_expired old else old)
          → right ≡ map_option (λ o. if filtered id o then as_expired o else o) old
          → left ≡ right
      one_order none rows test filtered id same complete sound l r = ground (arith, l, r)
      one_order (some o) rows test filtered id same complete sound l r =
          elim (Bool-cases (test o)) [
            | inl unpaid ↦ ground (arith, l, r, same o, listed rows id o (complete o refl unpaid))
            | inr other ↦ elim (Bool-cases (any (λ (e : ℕ × Order). e.0 == id) rows)) [
              | inr absent ↦ ground (arith, l, r, same o, absent)
              | inl there ↦
                  let (q, m) = from_list rows id there in
                  let (at, passed) = sound q m in
                  let same_order : o ≡ q = cc at in
                  absurd (clash (test o) other (ap test same_order ∙ passed))
            ]
          ]
