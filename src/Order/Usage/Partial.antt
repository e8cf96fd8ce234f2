-- ===== src/Order/Usage/Partial.antt =====
-- Reverting a usage when the month of the order has no record: `updateInfluencerMonthlySales` throws
-- after the coupon was written, and `revertCouponUsage` swallows the error.
use recharge_plataform_api.Prelude.{ℕ, ◌<◌, ◌≡◌, refl, arith, true, some, List, [], ◌∷◌}
use recharge_plataform_api.Prelude.Int.{pos, ◌-ℤ◌, ltb_ℤ, -ℤ_parts}
use recharge_plataform_api.Prisma.{Prisma}
use recharge_plataform_api.Utils.Calendar.{Calendar}
use recharge_plataform_api.Schema.{Order, Coupon, CouponUsage, InfluencerMonthlySales}
use recharge_plataform_api.Database.{World, Action, ok, err, Error}
use recharge_plataform_api.Database.Laws.{head-find_many_none, find-update_self}
use recharge_plataform_api.Order.Usage.{
  is_month, uncount_use, update_influencer_monthly_sales, revert_one, for_usages, usages_of,
  revert_coupon_usage,
}
use recharge_plataform_api.Order.Usage.RoundTrip.{HasOneUsage, map_usages}

negative : (price : ℕ) → 0 < price → ltb_ℤ (pos 0 -ℤ pos price) (pos 0) ≡ true
negative price h = ground (arith, -ℤ_parts (pos 0) (pos price))

module _ (P : Prisma) (calendar : Calendar) where
  -- The influencer has no record of the month of an instant.
  abbrev pub HasNoMonth : ℕ → ℕ → World P → Type 0
  HasNoMonth influencer date w =
      (j : ℕ) (s : InfluencerMonthlySales)
      → P.find_unique w.monthly_sales j ≡ some s
      → is_month influencer (calendar.month_of date) (calendar.year_of date) s ≡ true
      → ⊥

  revert_one_throws :
      (cid price created_at : ℕ) (c : Coupon) (w : World P)
      → P.find_unique w.coupons cid ≡ some c
      → 0 < price
      → HasNoMonth c.influencer_id created_at w
      → (e : Error) × (revert_one P calendar cid price created_at w
          ≡ (err e, record w { coupons = P.update w.coupons cid (uncount_use price) }))
  unfolding revert_one update_influencer_monthly_sales
  revert_one_throws cid price created_at c w found some_price no_month =
      rw
        (
          found,
          head-find_many_none P w.monthly_sales
              (is_month c.influencer_id (calendar.month_of created_at)
                (calendar.year_of created_at))
              no_month,
          negative price some_price,
        )
        (_, refl)

  for_one_throws :
      (body : ℕ → Action (World P) (Unit {0})) (cid : ℕ) (us : List (ℕ × CouponUsage))
      (w w' : World P) (e : Error)
      → map_usages us ≡ cid ∷ []
      → body cid w ≡ (err e, w')
      → for_usages P body us w ≡ (err e, w')
  unfolding for_usages
  for_one_throws body cid [] w w' e one h = cc one
  for_one_throws body cid (u ∷ us) w w' e one h =
      let same : u.1.coupon_id ≡ cid = cc one in rw (same, h)

  -- For an order of some price with one coupon usage, whose influencer has no record of the calendar
  -- month in which the order was created: reverting the usage inside the caller's transaction returns
  -- with no error, the use and the price are taken off the coupon, and the monthly sales stay as they
  -- were.
  pub revert_without_month :
      (order_id cid : ℕ) (o : Order) (c : Coupon) (w : World P)
      → HasOneUsage P calendar order_id o cid c w
      → 0 < o.price
      → HasNoMonth c.influencer_id o.created_at w
      → let (res, w') = revert_coupon_usage P calendar order_id w in
        (res ≡ ok tt)
        × (P.find_unique w'.coupons cid ≡ some (uncount_use o.price c))
        × (w'.monthly_sales ≡ w.monthly_sales)
  unfolding revert_coupon_usage
  revert_without_month order_id cid o c w (there, one, found) some_price no_month =
      let (e, thrown) = revert_one_throws cid o.price o.created_at c w found some_price no_month in
      rw
        (
          there,
          for_one_throws (λ k. revert_one P calendar k o.price o.created_at) cid
              (usages_of P order_id w) w
              (record w { coupons = P.update w.coupons cid (uncount_use o.price) }) e one thrown,
        )
        (refl, find-update_self P w.coupons cid (uncount_use o.price) found, refl)
