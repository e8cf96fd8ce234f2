-- ===== src/Metrics/Tally.antt =====
-- The loop of `recalculateMonthlyMetrics` over the orders of a month.
pub mod Laws
use recharge_plataform_api.Prelude.{ℕ, suc, ◌+◌, Bool, true, false, List, [], ◌∷◌, if◌then◌else◌}
use recharge_plataform_api.Schema.{
  Order, OrderStatus, created, processing, completed, expired, refounded,
}

abbrev pub is_completed : OrderStatus → Bool
is_completed completed = true
is_completed s = false

abbrev pub is_expired : OrderStatus → Bool
is_expired expired = true
is_expired s = false

abbrev pub is_refounded : OrderStatus → Bool
is_refounded refounded = true
is_refounded s = false

pub record Summary : Type 0 where
  pub total_sales : ℕ
  pub total_completed_orders : ℕ
  pub total_expired_orders : ℕ
  pub total_refunded_orders : ℕ
  pub orders_with_coupon : ℕ
  pub orders_without_coupon : ℕ

abbrev pub empty_summary : Summary
empty_summary = record {
  total_sales = 0;
  total_completed_orders = 0;
  total_expired_orders = 0;
  total_refunded_orders = 0;
  orders_with_coupon = 0;
  orders_without_coupon = 0;
}

-- The `switch` on the order's status; CREATED and PROCESSING count for nothing.
tally : OrderStatus → ℕ → Bool → Summary → Summary
tally completed price coupon s = record s {
  total_completed_orders = s.total_completed_orders + 1;
  total_sales = s.total_sales + price;
  orders_with_coupon = if coupon then s.orders_with_coupon + 1 else s.orders_with_coupon;
  orders_without_coupon = if coupon then s.orders_without_coupon else s.orders_without_coupon + 1;
}
tally expired price coupon s = record s { total_expired_orders = s.total_expired_orders + 1 }
tally refounded price coupon s = record s { total_refunded_orders = s.total_refunded_orders + 1 }
tally created price coupon s = s
tally processing price coupon s = s

tally_all : (ℕ → Bool) → List (ℕ × Order) → Summary → Summary
unfolding tally
tally_all has_coupon [] s = s
tally_all has_coupon ((id, o) ∷ os) s =
    tally_all has_coupon os (tally o.order_status o.price (has_coupon id) s)

unfoldable pub monthly_summary : (ℕ → Bool) → List (ℕ × Order) → Summary
unfolding tally_all
monthly_summary has_coupon orders = tally_all has_coupon orders empty_summary
