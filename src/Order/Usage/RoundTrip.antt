-- ===== src/Order/Usage/RoundTrip.antt =====
-- Confirming a coupon usage and reverting it again.
use recharge_plataform_api.Prelude.{
  ℕ, ◌≡◌, ◌≢◌, refl, sym, inl, inr, Bool-cases, ==→eq, ◌∙◌, true, false, some, List, [], ◌∷◌, arith,
  ◌==◌,
}
use recharge_plataform_api.Prelude.Int.{ℤ, pos, ◌+ℤ◌, ◌-ℤ◌, +ℤ_-ℤ, int_laws}
use recharge_plataform_api.Prisma.{Prisma}
use recharge_plataform_api.Utils.Calendar.{Calendar}
use recharge_plataform_api.Schema.{Order, Coupon, CouponUsage, InfluencerMonthlySales}
use recharge_plataform_api.Database.{World, Action, ok}
use recharge_plataform_api.Database.Laws.{
  find-update_self, find-update_ne, head-find_many, update_back,
}
use recharge_plataform_api.Order.Usage.{
  add_sales, is_month, count_use, uncount_use, update_influencer_monthly_sales, confirm_one,
  revert_one, for_usages, usages_of, confirm_coupon_usage, revert_coupon_usage,
}

abbrev pub map_usages : List (ℕ × CouponUsage) → List ℕ
map_usages [] = []
map_usages (u ∷ us) = u.1.coupon_id ∷ map_usages us

uncount-count : (price : ℕ) (c : Coupon) → uncount_use price (count_use price c) ≡ c
uncount-count price c = λ i. record c {
  times_used = +ℤ_-ℤ c.times_used (pos 1) i;
  total_sales_amount = +ℤ_-ℤ c.total_sales_amount (pos price) i;
}

plus_minus : (t : ℤ) (price : ℕ) → t +ℤ pos price +ℤ (pos 0 -ℤ pos price) ≡ t
plus_minus t price = omega int_laws

add_sales_back :
    (price : ℕ) (r : InfluencerMonthlySales)
    → add_sales (pos 0 -ℤ pos price) (add_sales (pos price) r) ≡ r
add_sales_back price r = λ i. record r { total_sales = plus_minus r.total_sales price i }

eq→ne : (a b : ℕ) → (a == b) ≡ false → a ≢ b
eq→ne a b h = ground arith

module _ (P : Prisma) (calendar : Calendar) where
  -- The record `m` is the influencer's record of the month of `date`.
  abbrev pub IsMonthRecord : ℕ → ℕ → ℕ → InfluencerMonthlySales → World P → Type 0
  IsMonthRecord influencer date m r w =
      (P.find_unique w.monthly_sales m ≡ some r)
      × (is_month influencer (calendar.month_of date) (calendar.year_of date) r ≡ true)
      × ((j : ℕ) (s : InfluencerMonthlySales)
          → P.find_unique w.monthly_sales j ≡ some s
          → is_month influencer (calendar.month_of date) (calendar.year_of date) s ≡ true
          → j ≡ m)

  update_sales_lem :
      (influencer : ℕ) (amount : ℤ) (date m : ℕ) (r : InfluencerMonthlySales) (w : World P)
      → IsMonthRecord influencer date m r w
      → update_influencer_monthly_sales P calendar influencer amount date w
        ≡ (ok tt, record w { monthly_sales = P.update w.monthly_sales m (add_sales amount) })
  unfolding update_influencer_monthly_sales
  update_sales_lem influencer amount date m r w (found, now, unique) = rw (
    head-find_many P w.monthly_sales
        (is_month influencer (calendar.month_of date) (calendar.year_of date)) m r found now unique,
    found,
  )

  pub confirm_one_lem :
      (cid price now m : ℕ) (c : Coupon) (r : InfluencerMonthlySales) (w : World P)
      → P.find_unique w.coupons cid ≡ some c
      → IsMonthRecord c.influencer_id now m r w
      → confirm_one P calendar cid price now w ≡ (
        ok tt,
        record w {
          coupons = P.update w.coupons cid (count_use price);
          monthly_sales = P.update w.monthly_sales m (add_sales (pos price));
        },
      )
  unfolding confirm_one
  confirm_one_lem cid price now m c r w found h = rw found (
      update_sales_lem c.influencer_id (pos price) now m r
        (record w { coupons = P.update w.coupons cid (count_use price) }) h)

  pub revert_one_lem :
      (cid price created_at m : ℕ) (c : Coupon) (r : InfluencerMonthlySales) (w : World P)
      → P.find_unique w.coupons cid ≡ some c
      → IsMonthRecord c.influencer_id created_at m r w
      → revert_one P calendar cid price created_at w ≡ (
        ok tt,
        record w {
          coupons = P.update w.coupons cid (uncount_use price);
          monthly_sales = P.update w.monthly_sales m (add_sales (pos 0 -ℤ pos price));
        },
      )
  unfolding revert_one
  revert_one_lem cid price created_at m c r w found h = rw found (
      update_sales_lem c.influencer_id (pos 0 -ℤ pos price) created_at m r
        (record w { coupons = P.update w.coupons cid (uncount_use price) }) h)

  -- Changing the total of a month's record leaves it the record of its month.
  pub add_sales-IsMonthRecord :
      (influencer date m : ℕ) (amount : ℤ) (r : InfluencerMonthlySales) (w : World P)
      → IsMonthRecord influencer date m r w
      → IsMonthRecord influencer date m
          (add_sales amount r)
          (record w { monthly_sales = P.update w.monthly_sales m (add_sales amount) })
  add_sales-IsMonthRecord influencer date m amount r w (found, now, unique) = (
    find-update_self P w.monthly_sales m (add_sales amount) found,
    now,
    λ j s there same. elim (Bool-cases (m == j)) [
      | inl here ↦ sym (==→eq m j here)
      | inr other ↦
          unique j s
            (sym (find-update_ne P w.monthly_sales m (add_sales amount) j (eq→ne m j other))
              ∙ there)
            same
    ],
  )

  -- The order `o` has one coupon usage, of the coupon `c`.
  abbrev pub HasOneUsage : ℕ → Order → ℕ → Coupon → World P → Type 0
  HasOneUsage order_id o cid c w =
      (P.find_unique w.orders order_id ≡ some o)
      × (map_usages (usages_of P order_id w) ≡ cid ∷ [])
      × (P.find_unique w.coupons cid ≡ some c)

  for_one_usage :
      (body : ℕ → Action (World P) (Unit {0})) (cid : ℕ) (us : List (ℕ × CouponUsage))
      (w w' : World P)
      → map_usages us ≡ cid ∷ []
      → body cid w ≡ (ok tt, w')
      → for_usages P body us w ≡ (ok tt, w')
  unfolding for_usages
  for_one_usage body cid [] w w' one e = cc
  for_one_usage body cid (u ∷ []) w w' one e =
      let same : u.1.coupon_id ≡ cid = cc one in rw (same, e)
  for_one_usage body cid (u ∷ v ∷ us) w w' one e = cc one

  pub confirm_coupon_usage_lem :
      (order_id now cid m : ℕ) (o : Order) (c : Coupon) (r : InfluencerMonthlySales) (w : World P)
      → HasOneUsage order_id o cid c w
      → IsMonthRecord c.influencer_id now m r w
      → confirm_coupon_usage P calendar order_id now w ≡ (
        ok tt,
        record w {
          coupons = P.update w.coupons cid (count_use o.price);
          monthly_sales = P.update w.monthly_sales m (add_sales (pos o.price));
        },
      )
  unfolding confirm_coupon_usage
  confirm_coupon_usage_lem order_id now cid m o c r w (there, one, found) h =
      let e =
        for_one_usage (λ k. confirm_one P calendar k o.price now) cid (usages_of P order_id w) w _
          one (confirm_one_lem cid o.price now m c r w found h) in
      rw (there, confirm_coupon_usage, e)

  pub revert_coupon_usage_lem :
      (order_id cid m : ℕ) (o : Order) (c : Coupon) (r : InfluencerMonthlySales) (w : World P)
      → HasOneUsage order_id o cid c w
      → IsMonthRecord c.influencer_id o.created_at m r w
      → revert_coupon_usage P calendar order_id w ≡ (
        ok tt,
        record w {
          coupons = P.update w.coupons cid (uncount_use o.price);
          monthly_sales = P.update w.monthly_sales m (add_sales (pos 0 -ℤ pos o.price));
        },
      )
  unfolding revert_coupon_usage
  revert_coupon_usage_lem order_id cid m o c r w (there, one, found) h =
      let e =
        for_one_usage (λ k. revert_one P calendar k o.price o.created_at) cid
          (usages_of P order_id w) w _ one
          (revert_one_lem cid o.price o.created_at m c r w found h) in
      rw (there, revert_coupon_usage, e)

  -- Both months agree: the calendar gives the instants the same month of the same year.
  abbrev pub IsSameMonth : ℕ → ℕ → Type 0
  IsSameMonth a b =
      (calendar.month_of a ≡ calendar.month_of b) × (calendar.year_of a ≡ calendar.year_of b)

  after_confirm : ℕ → ℕ → Order → World P → World P
  after_confirm cid m o w = record w {
    coupons = P.update w.coupons cid (count_use o.price);
    monthly_sales = P.update w.monthly_sales m (add_sales (pos o.price));
  }

  revert-after_confirm :
      (order_id now cid m : ℕ) (o : Order) (c : Coupon) (r : InfluencerMonthlySales) (w : World P)
      → HasOneUsage order_id o cid c w
      → IsMonthRecord c.influencer_id now m r w
      → IsSameMonth now o.created_at
      → revert_coupon_usage P calendar order_id (after_confirm cid m o w) ≡ (
        ok tt,
        record w {
          coupons = P.update (P.update w.coupons cid (count_use o.price)) cid (uncount_use o.price);
          monthly_sales =
              P.update
                (P.update w.monthly_sales m (add_sales (pos o.price)))
                m
                (add_sales (pos 0 -ℤ pos o.price));
        },
      )
  unfolding after_confirm
  revert-after_confirm order_id now cid m o c r w (there, one, found) h same =
      revert_coupon_usage_lem order_id cid m o (count_use o.price c) (add_sales (pos o.price) r)
        (after_confirm cid m o w)
        (there, one, find-update_self P w.coupons cid (count_use o.price) found)
        (rw (← same.0, ← same.1)
          (add_sales-IsMonthRecord c.influencer_id now m (pos o.price) r w h))

  -- For an order with one coupon usage that is confirmed in the calendar month of its creation, the
  -- influencer having a record of that month: reverting after confirming returns with no error, and
  -- every coupon and every monthly record is as it was before.
  pub revert-confirm_coupon_usage :
      (order_id now cid m : ℕ) (o : Order) (c : Coupon) (r : InfluencerMonthlySales) (w : World P)
      → HasOneUsage order_id o cid c w
      → IsMonthRecord c.influencer_id now m r w
      → IsSameMonth now o.created_at
      → let (res, w') =
          revert_coupon_usage P calendar order_id
            (confirm_coupon_usage P calendar order_id now w).1 in
        (res ≡ ok tt)
        × ((j : ℕ) → P.find_unique w'.coupons j ≡ P.find_unique w.coupons j)
        × ((j : ℕ) → P.find_unique w'.monthly_sales j ≡ P.find_unique w.monthly_sales j)
  unfolding after_confirm
  revert-confirm_coupon_usage order_id now cid m o c r w usage h same =
      rw
        (
          confirm_coupon_usage_lem order_id now cid m o c r w usage h,
          revert-after_confirm order_id now cid m o c r w usage h same,
        )
        (
          refl,
          λ j.
              update_back P w.coupons cid (count_use o.price) (uncount_use o.price) j
                (uncount-count o.price),
          λ j.
              update_back P w.monthly_sales m (add_sales (pos o.price))
                (add_sales (pos 0 -ℤ pos o.price)) j (add_sales_back o.price),
        )
