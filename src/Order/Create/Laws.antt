-- ===== src/Order/Create/Laws.antt =====
-- The rows that a new order leaves, and that a coupon for one use is used up by them.
use recharge_plataform_api.Prelude.{
  ℕ, ◌≡◌, ◌≢◌, refl, inl, inr, Bool, true, Option, none, some, ◌==◌, head?, ==_self, sym, ◌∙◌,
  Option-cases,
}
use recharge_plataform_api.Prelude.Text.{Text, text_eq}
use recharge_plataform_api.Prisma.{Prisma}
use recharge_plataform_api.Schema.{
  Order, OrderStatus, created, processing, completed, expired, refounded, Payment, PaymentStatus,
  payment_pending, payment_approved, payment_rejected, Coupon, CouponUsage,
}
use recharge_plataform_api.Database.{World, ok}
use recharge_plataform_api.Database.Laws.{find-create_self}
use recharge_plataform_api.Order.Create.{
  OrderData, new_order, new_payment, new_recharge, new_package_info, create_rows,
}
use recharge_plataform_api.Order.Coupon.{
  Money, is_open_order, is_paying, is_live_usage, check_coupon, accepted,
}
use recharge_plataform_api.Order.Coupon.Laws.{check_coupon-IsEligible}

open_status : (s : OrderStatus) → s ≢ expired → s ≢ refounded → is_open_order s ≡ true
open_status created e r = refl
open_status processing e r = refl
open_status completed e r = refl
open_status expired e r = absurd (e refl)
open_status refounded e r = absurd (r refl)

paying_status : (s : PaymentStatus) → s ≢ payment_rejected → is_paying s ≡ true
paying_status payment_pending r = refl
paying_status payment_approved r = refl
paying_status payment_rejected r = absurd (r refl)

module _ (P : Prisma) where
  -- No order has the number yet.
  abbrev pub IsFreeNumber : Text → World P → Type 0
  IsFreeNumber order_number w =
      head? (P.find_many w.orders (λ o. text_eq o.order_number order_number)) ≡ none

  -- The new order of a transaction that committed.
  abbrev pub order_row : ℕ → OrderData → World P → Order
  order_row now d w =
      new_order now d (P.create w.payments (new_payment now d)).0
        (P.create w.recharges (new_recharge now d)).0
        (P.create w.package_infos (new_package_info d)).0

  pub rows_written :
      (now : ℕ) (d : OrderData) (w : World P)
      → head? (P.find_many w.orders (λ o. text_eq o.order_number d.order_number)) ≡ none
      → ((create_rows P now d w).0 ≡ ok (P.create w.orders (order_row now d w)).0)
        × ((create_rows P now d w).1.orders ≡ (P.create w.orders (order_row now d w)).1)
        × ((create_rows P now d w).1.payments ≡ (P.create w.payments (new_payment now d)).1)
        × ((create_rows P now d w).1.recharges ≡ (P.create w.recharges (new_recharge now d)).1)
        × ((create_rows P now d w).1.package_infos
            ≡ (P.create w.package_infos (new_package_info d)).1)
  unfolding create_rows
  rows_written now d w free = elim (Option-cases d.coupon) [
    | inl plain ↦ rw (free, plain) (refl, refl, refl, refl, refl)
    | inr (c, with_coupon) ↦ rw (free, with_coupon) (refl, refl, refl, refl, refl)
  ]

  pub rows_refused :
      (now : ℕ) (d : OrderData) (w : World P) (e : ℕ × Order) (id : ℕ)
      → head? (P.find_many w.orders (λ o. text_eq o.order_number d.order_number)) ≡ some e
      → (create_rows P now d w).0 ≢ ok id
  unfolding create_rows
  rows_refused now d w e id taken h = cc (rw taken at h)

  -- The rows of a transaction with a coupon that committed.
  create_rows_lem :
      (now : ℕ) (d : OrderData) (c : ℕ) (w : World P)
      → IsFreeNumber d.order_number w
      → d.coupon ≡ some c
      → let (res, w') = create_rows P now d w in
        (id : ℕ) × (payment_id : ℕ) × (recharge_id : ℕ) × (package_info_id : ℕ) × (usage_id : ℕ)
        × (res ≡ ok id)
        × (P.find_unique w'.orders id
            ≡ some (new_order now d payment_id recharge_id package_info_id))
        × (P.find_unique w'.payments payment_id ≡ some (new_payment now d))
        × (P.find_unique w'.recharges recharge_id ≡ some (new_recharge now d))
        × (P.find_unique w'.coupon_usages usage_id ≡ some (record { coupon_id = c; order_id = id }))
  unfolding create_rows
  create_rows_lem now d c w free with_coupon =
      let package_info_id : ℕ = (P.create w.package_infos (new_package_info d)).0 in
      let recharge_id : ℕ = (P.create w.recharges (new_recharge now d)).0 in
      let payment_id : ℕ = (P.create w.payments (new_payment now d)).0 in
      let o : Order = new_order now d payment_id recharge_id package_info_id in
      let id : ℕ = (P.create w.orders o).0 in
      let u : CouponUsage = record { coupon_id = c; order_id = id } in
      rw (free, with_coupon)
        (
          id,
          payment_id,
          recharge_id,
          package_info_id,
          (P.create w.coupon_usages u).0,
          refl,
          find-create_self P w.orders o,
          find-create_self P w.payments (new_payment now d),
          find-create_self P w.recharges (new_recharge now d),
          find-create_self P w.coupon_usages u,
        )

  -- A usage by an order that is there, open, with a payment that is there and not rejected, is live.
  usage_live :
      (c id : ℕ) (test : Order → Bool) (o : Order) (p : Payment) (w : World P)
      → P.find_unique w.orders id ≡ some o
      → P.find_unique w.payments o.payment_id ≡ some p
      → is_open_order o.order_status ≡ true
      → is_paying p.status ≡ true
      → test o ≡ true
      → is_live_usage P c test w (record { coupon_id = c; order_id = id }) ≡ true
  usage_live c id test o p w ordered paid open_status paying passed =
      rw (==_self, ordered, passed, open_status, paid, paying)

  -- The usage that a transaction with a coupon has written.
  usage_written :
      (now : ℕ) (d : OrderData) (c : ℕ) (w : World P) (id : ℕ)
      → d.coupon ≡ some c
      → (create_rows P now d w).0 ≡ ok id
      → (i : ℕ) × (P.find_unique (create_rows P now d w).1.coupon_usages i
          ≡ some (record { coupon_id = c; order_id = id }))
  usage_written now d c w id with_coupon done =
      elim (Option-cases
        (head? (P.find_many w.orders (λ o. text_eq o.order_number d.order_number)))) [
          | inr (e, taken) ↦ absurd (rows_refused now d w e id taken done)
          | inl free ↦
              let (
                j, payment_id, recharge_id, package_info_id, i, made, ordered, paid, recharged,
                used,
              ) =
                create_rows_lem now d c w free with_coupon in
              let same : j ≡ id = cc (sym made ∙ done) in (i, rw (← same) used)
        ]

  -- Once the transaction of an order with a coupon for one use per bigoId has returned, `validateCoupon`
  -- does not accept the coupon for that user, whatever the amount, the store, the bigoId and the
  -- instant, in any later state in which no usage was removed, the order is there with its user and is
  -- neither EXPIRED nor REFOUNDED, and its payment is there and not rejected.
  pub one_time_coupon_used :
      (now : ℕ) (d : OrderData) (cid : ℕ) (c : Coupon) (w v : World P) (money : Money)
      (amount store : ℕ) (bigo_id : Option Text) (later discount final n id : ℕ) (o : Order)
      (p : Payment)
      → d.coupon ≡ some cid
      → c.is_one_time_per_bigo_id ≡ true
      → (create_rows P now d w).0 ≡ ok id
      → ((i : ℕ) (u : CouponUsage)
          → P.find_unique (create_rows P now d w).1.coupon_usages i ≡ some u
          → P.find_unique v.coupon_usages i ≡ some u)
      → P.find_unique v.orders id ≡ some o
      → o.user_id ≡ d.user_id
      → o.order_status ≢ expired
      → o.order_status ≢ refounded
      → P.find_unique v.payments o.payment_id ≡ some p
      → p.status ≢ payment_rejected
      → check_coupon P money (cid, c) amount store d.user_id bigo_id later v
        ≢ accepted discount final n
  one_time_coupon_used now d cid c w v money amount store bigo_id later discount final n id o p
        with_coupon once done kept ordered by not_expired not_refunded paid not_rejected h =
      let (i, used) = usage_written now d cid w id with_coupon done in
      let (active, fresh, uses, enough, first, one_use) =
        (check_coupon-IsEligible P money cid c amount store d.user_id bigo_id later v discount final
          n h).0 in
      elim one_use [
        | inl many ↦ cc
        | inr (given, by_bigo_id, by_user) ↦
            by_user i (record { coupon_id = cid; order_id = id })
              (kept i (record { coupon_id = cid; order_id = id }) used)
              (usage_live cid id (λ r. r.user_id == d.user_id) o p v ordered paid
                (open_status o.order_status not_expired not_refunded)
                (paying_status p.status not_rejected) (rw by (==_self d.user_id)))
      ]
