-- ===== src/Order/Usage.antt =====
-- `confirmCouponUsage`, `revertCouponUsage` and `updateInfluencerMonthlySales` of `order.service.ts`.
-- `getMonth() + 1` and `getFullYear()` of a date depend on the time zone of the server: parameters.
pub mod RoundTrip
pub mod Frame
pub mod Partial
use recharge_plataform_api.Prelude.{
  ℕ, suc, Bool, true, false, ◌&&◌, Option, none, some, List, [], ◌∷◌, ◌==◌, head?, if◌then◌else◌,
}
use recharge_plataform_api.Prelude.Int.{ℤ, pos, negsuc, ◌+ℤ◌, ◌-ℤ◌, ltb_ℤ}
use recharge_plataform_api.Prelude.Text.{Text, codes}
use recharge_plataform_api.Prisma.{Prisma}
use recharge_plataform_api.Utils.Calendar.{Calendar}
use recharge_plataform_api.Schema.{Order, Coupon, CouponUsage, InfluencerMonthlySales}
use recharge_plataform_api.Database.{
  World, Action, Result, ok, err, Error, js_error, pure, throw, transaction, try_catch, on_option,
  ◌>>=◌, ◌>>◌, update_coupon, update_monthly_sales, create_monthly_sales,
}

-- `data: { totalSales: { increment: amount } }`, or `decrement` of a negative amount
abbrev pub add_sales : ℤ → InfluencerMonthlySales → InfluencerMonthlySales
add_sales amount r = record r { total_sales = r.total_sales +ℤ amount }

-- `where: { influencerId, month, year }`
abbrev pub is_month : ℕ → ℕ → ℕ → InfluencerMonthlySales → Bool
is_month influencer month year r =
    r.influencer_id == influencer && (r.month == month && r.year == year)

-- `timesUsed: { increment: 1 }, totalSalesAmount: { increment: order.price }`
abbrev pub count_use : ℕ → Coupon → Coupon
count_use price c = record c {
  times_used = c.times_used +ℤ pos 1;
  total_sales_amount = c.total_sales_amount +ℤ pos price;
}

abbrev pub uncount_use : ℕ → Coupon → Coupon
uncount_use price c = record c {
  times_used = c.times_used -ℤ pos 1;
  total_sales_amount = c.total_sales_amount -ℤ pos price;
}

module _ (P : Prisma) where
  -- `for (const couponUsage of order.couponUsages)`
  unfoldable pub for_usages :
      (ℕ → Action (World P) (Unit {0})) → List (ℕ × CouponUsage) → Action (World P) (Unit {0})
  for_usages body [] = pure tt
  for_usages body (u ∷ us) = body u.1.coupon_id >> for_usages body us

  abbrev pub usages_of : ℕ → World P → List (ℕ × CouponUsage)
  usages_of order_id w = P.find_many w.coupon_usages (λ u. u.order_id == order_id)

module _ (P : Prisma) (calendar : Calendar) where
  -- The record of the month is changed, or created unless the amount is negative.
  unfoldable pub update_influencer_monthly_sales : ℕ → ℤ → ℕ → Action (World P) (Unit {0})
  update_influencer_monthly_sales influencer amount date w =
      let month : ℕ = calendar.month_of date in
      let year : ℕ = calendar.year_of date in
      on_option
        ((if ltb_ℤ amount (pos 0)
            then throw (js_error (codes "Cannot create new record with negative sale amount"))
            else create_monthly_sales P (record {
              influencer_id = influencer;
              month = month;
              year = year;
              total_sales = amount;
            })
              >> pure tt)
          w)
        (λ existing. update_monthly_sales P existing.0 (add_sales amount) w)
        (head? (P.find_many w.monthly_sales (is_month influencer month year)))

  -- One coupon usage, by the id of its coupon: the coupon's row first, then the influencer's month.
  unfoldable pub confirm_one : ℕ → ℕ → ℕ → Action (World P) (Unit {0})
  unfolding update_influencer_monthly_sales
  confirm_one coupon_id price now w =
      on_option (ok tt, w)
        (λ coupon.
          (do
            update_coupon P coupon_id (count_use price)
            update_influencer_monthly_sales coupon.influencer_id (pos price) now)
            w)
        (P.find_unique w.coupons coupon_id)

  unfoldable pub revert_one : ℕ → ℕ → ℕ → Action (World P) (Unit {0})
  unfolding update_influencer_monthly_sales
  revert_one coupon_id price created_at w =
      on_option (ok tt, w)
        (λ coupon.
          (do
            update_coupon P coupon_id (uncount_use price)
            update_influencer_monthly_sales coupon.influencer_id (pos 0 -ℤ pos price) created_at)
            w)
        (P.find_unique w.coupons coupon_id)

  -- What the transaction of `confirmCouponUsage` does for the order that was read before it.
  unfoldable pub confirm_usages : ℕ → ℕ → Action (World P) (Unit {0})
  unfolding for_usages confirm_one
  confirm_usages order_id now w =
      on_option (ok tt, w)
        (λ (order : Order).
          transaction (for_usages P (λ c. confirm_one c order.price now) (usages_of P order_id w))
            w)
        (P.find_unique w.orders order_id)

  -- Every error is logged and swallowed.
  unfoldable pub confirm_coupon_usage : ℕ → ℕ → Action (World P) (Unit {0})
  unfolding confirm_usages
  confirm_coupon_usage order_id now = try_catch (confirm_usages order_id now) (λ e. pure tt)

  -- `executeRevert`
  unfoldable pub revert_usages : ℕ → Action (World P) (Unit {0})
  unfolding for_usages revert_one
  revert_usages order_id w =
      on_option (ok tt, w)
        (λ (order : Order).
          for_usages P (λ c. revert_one c order.price order.created_at) (usages_of P order_id w) w)
        (P.find_unique w.orders order_id)

  -- `revertCouponUsage(orderId, tx)`: inside the caller's transaction, with every error swallowed, so
  -- that what was written before an error stays written.
  unfoldable pub revert_coupon_usage : ℕ → Action (World P) (Unit {0})
  unfolding revert_usages
  revert_coupon_usage order_id = try_catch (revert_usages order_id) (λ e. pure tt)

  -- `revertCouponUsage(orderId)`: in a transaction of its own.
  unfoldable pub revert_coupon_usage_alone : ℕ → Action (World P) (Unit {0})
  unfolding revert_usages
  revert_coupon_usage_alone order_id =
      try_catch (transaction (revert_usages order_id)) (λ e. pure tt)
