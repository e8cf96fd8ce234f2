-- ===== src/Order/Recent/Laws.antt =====
-- Which order a repeated request is answered with.
use recharge_plataform_api.Prelude.{
  ℕ, ◌+◌, ◌-◌, ◌≤◌, ◌≡◌, refl, ◌⊎◌, inl, inr, subst, arith, Bool, true, false, ◌&&◌, Option, none,
  some, leb, ◌==◌, head?, Bool-cases, Option-cases, ==→eq,
}
use recharge_plataform_api.Prelude.Text.{Text, text_eq, text_eq→eq}
use recharge_plataform_api.Prisma.{Prisma}
use recharge_plataform_api.Schema.{
  Order, OrderStatus, created, processing, completed, expired, refounded, Recharge, PackageInfo,
  Payment, PaymentStatus, payment_pending, payment_approved, payment_rejected,
}
use recharge_plataform_api.Database.{World, on_option}
use recharge_plataform_api.Database.Laws.{head-found}
use recharge_plataform_api.Order.Expiry.{is_pending}
use recharge_plataform_api.Order.Recent.{
  PriceTest, is_unprocessed, is_recent, is_reusable, recent_order,
}

both : (a b : Bool) → (a && b) ≡ true → (a ≡ true) × (b ≡ true)
both true b h = (refl, h)
both false b h = cc h

pending_status : (s : PaymentStatus) → is_pending s ≡ true → s ≡ payment_pending
pending_status payment_pending h = refl
pending_status payment_approved h = cc h
pending_status payment_rejected h = cc h

unprocessed_status : (s : OrderStatus) → is_unprocessed s ≡ true → (s ≡ created) ⊎ (s ≡ expired)
unprocessed_status created h = inl refl
unprocessed_status expired h = inr refl
unprocessed_status processing h = cc h
unprocessed_status completed h = cc h
unprocessed_status refounded h = cc h

some_payment :
    (o : Option Payment)
    → on_option false (λ (p : Payment). is_pending p.status) o ≡ true
    → (p : Payment) × (o ≡ some p) × (p.status ≡ payment_pending)
some_payment none h = cc h
some_payment (some p) h = (p, refl, pending_status p.status h)

some_recharge :
    (bigo_id : Text) (o : Option Recharge)
    → on_option false (λ (r : Recharge). text_eq r.user_id_for_recharge bigo_id) o ≡ true
    → (r : Recharge) × (o ≡ some r) × (r.user_id_for_recharge ≡ bigo_id)
some_recharge bigo_id none h = cc h
some_recharge bigo_id (some r) h = (r, refl, text_eq→eq r.user_id_for_recharge bigo_id h)

some_package :
    (pkg : ℕ) (o : Option PackageInfo)
    → on_option false (λ (i : PackageInfo). i.package_id == pkg) o ≡ true
    → (i : PackageInfo) × (o ≡ some i) × (i.package_id ≡ pkg)
some_package pkg none h = cc h
some_package pkg (some i) h = (i, refl, ==→eq i.package_id pkg h)

recent_enough : (now created_at : ℕ) → leb (now - 5000) created_at ≡ true → now ≤ created_at + 5000
recent_enough now created_at h = ground arith

module _ (P : Prisma) where
  -- What hangs on an order: a pending payment, the recharge of an account, and a package.
  abbrev pub HasParts : ℕ → Text → Order → World P → Type 0
  HasParts pkg bigo_id o w =
      ((p : Payment) × (P.find_unique w.payments o.payment_id ≡ some p)
        × (p.status ≡ payment_pending))
      × ((r : Recharge) × (P.find_unique w.recharges o.recharge_id ≡ some r)
          × (r.user_id_for_recharge ≡ bigo_id))
      × ((i : PackageInfo) × (P.find_unique w.package_infos o.package_id ≡ some i)
          × (i.package_id ≡ pkg))

  -- An order of the user and the store that a request of the present may repeat, at a price.
  abbrev pub IsRepeated : ℕ → ℕ → ℕ → Text → ℕ → ℕ → World P → ℕ × Order → Type 0
  IsRepeated user store pkg bigo_id final now w (id, o) =
      (P.find_unique w.orders id ≡ some o)
      × (o.user_id ≡ user)
      × (o.store_id ≡ store)
      × (now ≤ o.created_at + 5000)
      × ((o.order_status ≡ created) ⊎ (o.order_status ≡ expired))
      × HasParts pkg bigo_id o w
      × (o.price ≤ final + 1)
      × (final ≤ o.price + 1)

  reusable-IsRepeated :
      (prices : PriceTest) (user store pkg : ℕ) (bigo_id : Text) (coupon : Option ℕ) (final now : ℕ)
      (w : World P) (e : ℕ × Order)
      → P.find_unique w.orders e.0 ≡ some e.1
      → is_recent P user store pkg bigo_id now w e.1 ≡ true
      → is_reusable P prices coupon final w e ≡ true
      → IsRepeated user store pkg bigo_id final now w e
  reusable-IsRepeated prices user store pkg bigo_id coupon final now w (id, o) there recent
        reusable =
      let (by_user, r1) = both _ _ recent in
      let (by_store, r2) = both _ _ r1 in
      let (of_package, r3) = both _ _ r2 in
      let (of_bigo_id, young) = both _ _ r3 in
      let (pending, u1) = both _ _ reusable in
      let (unprocessed, u2) = both _ _ u1 in
      let (priced, coupons) = both _ _ u2 in
      let (low, high) = prices.matches_near o.price final priced in
      (
        there,
        ==→eq o.user_id user by_user,
        ==→eq o.store_id store by_store,
        recent_enough now o.created_at young,
        unprocessed_status o.order_status unprocessed,
        (
          some_payment (P.find_unique w.payments o.payment_id) pending,
          some_recharge bigo_id (P.find_unique w.recharges o.recharge_id) of_bigo_id,
          some_package pkg (P.find_unique w.package_infos o.package_id) of_package,
        ),
        low,
        high,
      )

  -- An order that `create` answers a repeated request with is there, belongs to the same user and store,
  -- is at most five seconds old, is CREATED or EXPIRED with a pending payment, and its price is within
  -- a cent of the price that was calculated.
  pub recent_order-IsRepeated :
      (prices : PriceTest) (user store pkg : ℕ) (bigo_id : Text) (coupon : Option ℕ) (final now : ℕ)
      (w : World P) (e : ℕ × Order)
      → recent_order P prices user store pkg bigo_id coupon final now w ≡ some e
      → IsRepeated user store pkg bigo_id final now w e
  unfolding recent_order
  recent_order-IsRepeated prices user store pkg bigo_id coupon final now w e h =
      elim (Option-cases
        (head? (P.find_many w.orders (is_recent P user store pkg bigo_id now w)))) [
          | inl none_there ↦ cc (rw none_there at h)
          | inr (d, first) ↦ elim (Bool-cases (is_reusable P prices coupon final w d)) [
            | inr other ↦ cc (rw (first, other) at h)
            | inl reusable ↦
                let same : d ≡ e = cc (rw (first, reusable) at h) in
                let (there, recent) =
                  head-found P w.orders (is_recent P user store pkg bigo_id now w) d first in
                subst (IsRepeated user store pkg bigo_id final now w) same (
                  reusable-IsRepeated prices user store pkg bigo_id coupon final now w d there
                    recent reusable)
          ]
        ]
