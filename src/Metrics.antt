-- ===== src/Metrics.antt =====
-- `metrics.service.ts`: the sales tables of a store, recalculated from its orders.
pub mod Tally
pub mod ByProduct
pub mod Frame
use recharge_plataform_api.Prelude.{
  ℕ, ◌+◌, ◌*◌, Bool, true, false, ◌&&◌, Option, none, some, List, [], ◌∷◌, ◌==◌, leb, ltb, length,
  sum_if, head?, if◌then◌else◌, map,
}
use recharge_plataform_api.Prisma.{Prisma}
use recharge_plataform_api.Utils.Calendar.{Calendar}
use recharge_plataform_api.Schema.{
  Order, CouponUsage, StoreDailySales, StoreMonthlySales, StoreMonthlySalesByProduct, User,
}
use recharge_plataform_api.Database.{World, Action, Result, ok, err, on_option, upsert_row}
use recharge_plataform_api.Order.Expiry.{check_and_expire_orders}
use Tally.{Summary, is_completed, monthly_summary}
use ByProduct.{ProductMetrics, group_by_product}

-- `totalSales > 0 ? totalSales : 0`
abbrev pub or_zero : ℕ → ℕ
or_zero n = if ltb 0 n then n else 0

module _ (P : Prisma) (calendar : Calendar) where
  abbrev pub daily_orders : ℕ → ℕ → World P → List (ℕ × Order)
  daily_orders store date w = P.find_many w.orders λ o.
      o.store_id == store
      && (leb date o.created_at && ltb o.created_at (date + 24 * 60 * 60 * 1000))

  unfoldable pub recalculate_daily_metrics : ℕ → ℕ → World P → World P
  recalculate_daily_metrics store target_date w =
      let date : ℕ = calendar.start_of_day target_date in
      let orders = daily_orders store date w in
      let total_orders : ℕ = length orders in
      let total_sales : ℕ = sum_if (λ o. is_completed o.1.order_status) (λ o. o.1.price) orders in
      record w {
        daily_sales =
            upsert_row P w.daily_sales (λ r. r.store_id == store && r.date == date)
              (record {
                store_id = store;
                date = date;
                total_sales = or_zero total_sales;
                total_orders = total_orders;
              })
              (λ r. record r { total_sales = or_zero total_sales; total_orders = total_orders });
      }

  abbrev pub monthly_orders : ℕ → ℕ → ℕ → World P → List (ℕ × Order)
  monthly_orders store month year w = P.find_many w.orders λ o.
      o.store_id == store
      && (leb (calendar.start_of_month year month) o.created_at
          && leb o.created_at (calendar.end_of_month year month))

  -- `order.couponUsages.length > 0`
  abbrev pub has_coupon : World P → ℕ → Bool
  has_coupon w id =
      ltb 0 (length (P.find_many w.coupon_usages (λ (u : CouponUsage). u.order_id == id)))

  abbrev new_customers : ℕ → ℕ → ℕ → World P → ℕ
  new_customers store month year w = length (
      P.find_many w.users (λ (u : User).
        u.store_id == store
        && (u.email_verified
            && (leb (calendar.start_of_month year month) u.created_at
                && leb u.created_at (calendar.end_of_month year month)))))

  -- The row that `create` and `update` of the upsert write, over what the row held before.
  abbrev with_summary : ℕ → ℕ → Summary → StoreMonthlySales → StoreMonthlySales
  with_summary total_orders customers s r = record r {
    total_sales = or_zero s.total_sales;
    total_orders = total_orders;
    total_completed_orders = s.total_completed_orders;
    total_expired_orders = s.total_expired_orders;
    total_refunded_orders = s.total_refunded_orders;
    new_customers = customers;
    orders_with_coupon = s.orders_with_coupon;
    orders_without_coupon = s.orders_without_coupon;
  }

  abbrev empty_month : ℕ → ℕ → ℕ → StoreMonthlySales
  empty_month store month year = record {
    store_id = store;
    month = month;
    year = year;
    total_sales = 0;
    total_orders = 0;
    total_completed_orders = 0;
    total_expired_orders = 0;
    total_refunded_orders = 0;
    new_customers = 0;
    orders_with_coupon = 0;
    orders_without_coupon = 0;
  }

  unfoldable pub recalculate_monthly_metrics : ℕ → ℕ → ℕ → World P → World P
  recalculate_monthly_metrics store month year w =
      let orders = monthly_orders store month year w in
      let write =
        with_summary (length orders) (new_customers store month year w)
          (monthly_summary (has_coupon w) orders) in
      record w {
        store_monthly_sales =
            upsert_row P w.store_monthly_sales
              (λ r. r.store_id == store && (r.month == month && r.year == year))
              (write (empty_month store month year)) write;
      }

  -- `for (const [productId, metrics] of productMetrics.entries())`
  upsert_products :
      ℕ
      → ℕ
      → ℕ
      → List (ℕ × ProductMetrics)
      → P.Table StoreMonthlySalesByProduct
      → P.Table StoreMonthlySalesByProduct
  upsert_products store month year [] t = t
  upsert_products store month year ((product, m) ∷ ms) t = upsert_products store month year ms (
      upsert_row P t
        (λ r.
          r.store_id == store && (r.product_id == product && (r.month == month && r.year == year)))
        (record {
          store_id = store;
          product_id = product;
          month = month;
          year = year;
          total_sales = or_zero m.total_sales;
          total_orders = m.total_orders;
        })
        (λ r. record r { total_sales = or_zero m.total_sales; total_orders = m.total_orders }))

  unfoldable pub recalculate_monthly_by_product_metrics : ℕ → ℕ → ℕ → World P → World P
  unfolding upsert_products
  recalculate_monthly_by_product_metrics store month year w = record w {
    product_sales =
        upsert_products store month year (group_by_product (monthly_orders store month year w))
          w.product_sales;
  }

  -- The three recalculations, on the day and the month of an instant.
  unfoldable pub recalculate_at : ℕ → ℕ → World P → World P
  unfolding recalculate_daily_metrics recalculate_monthly_metrics
      recalculate_monthly_by_product_metrics
  recalculate_at store instant w =
      let date : ℕ = calendar.start_of_day instant in
      let month : ℕ = calendar.month_of date in
      let year : ℕ = calendar.year_of date in
      recalculate_monthly_by_product_metrics store month year
        (recalculate_monthly_metrics store month year (recalculate_daily_metrics store date w))

  -- `updateMetricsForOrder`: only for a completed order, on the day and month of its creation.
  unfoldable pub update_metrics_for_order : ℕ → World P → World P
  unfolding recalculate_at
  update_metrics_for_order order_id w =
      on_option w
        (λ (o : Order).
          if is_completed o.order_status then recalculate_at o.store_id o.created_at w else w)
        (P.find_unique w.orders order_id)

  -- `recalculateStoreMetrics`: unpaid orders up to the day are expired first.
  unfoldable pub recalculate_store_metrics : ℕ → ℕ → ℕ → ℕ → World P → World P
  unfolding recalculate_at
  recalculate_store_metrics store target_date now hours w =
      let date : ℕ = calendar.start_of_day target_date in
      recalculate_at store date
        (check_and_expire_orders P calendar (some store) [] (some date) now hours w).1
