-- ===== src/Metrics/Tally/Laws.antt =====
-- What the counters of a month add up to.
use recharge_plataform_api.Prelude.{
  ℕ, ◌+◌, ◌≡◌, Bool, not, ◌&&◌, List, [], ◌∷◌, arith, sum_if, count_if,
}
use recharge_plataform_api.Schema.{Order}
use recharge_plataform_api.Metrics.Tally.{
  Summary, empty_summary, is_completed, is_expired, is_refounded, tally, tally_all, monthly_summary,
}

-- The counters of the loop, as counts and sums over the list, added to a start.
abbrev pub Counts : (ℕ → Bool) → List (ℕ × Order) → Summary → Summary → Type 0
Counts has_coupon orders start s =
    (s.total_sales
      ≡ start.total_sales + sum_if (λ o. is_completed o.1.order_status) (λ o. o.1.price) orders)
    × (s.total_completed_orders
        ≡ start.total_completed_orders + count_if (λ o. is_completed o.1.order_status) orders)
    × (s.total_expired_orders
        ≡ start.total_expired_orders + count_if (λ o. is_expired o.1.order_status) orders)
    × (s.total_refunded_orders
        ≡ start.total_refunded_orders + count_if (λ o. is_refounded o.1.order_status) orders)
    × (s.orders_with_coupon
        ≡ start.orders_with_coupon
          + count_if (λ o. is_completed o.1.order_status && has_coupon o.0) orders)
    × (s.orders_without_coupon
        ≡ start.orders_without_coupon
          + count_if (λ o. is_completed o.1.order_status && not (has_coupon o.0)) orders)

tally-Counts :
    (has_coupon : ℕ → Bool) (id : ℕ) (o : Order) (s : Summary)
    → Counts has_coupon ((id, o) ∷ []) s (tally o.order_status o.price (has_coupon id) s)
unfolding tally
tally-Counts has_coupon id o s = ground arith

tally_all-Counts :
    (has_coupon : ℕ → Bool) (orders : List (ℕ × Order)) (s : Summary)
    → Counts has_coupon orders s (tally_all has_coupon orders s)
unfolding tally_all
tally_all-Counts has_coupon [] s = omega arith
tally_all-Counts has_coupon ((id, o) ∷ os) s =
    let step = tally-Counts has_coupon id o s in
    let rest = tally_all-Counts has_coupon os (tally o.order_status o.price (has_coupon id) s) in
    omega (arith, step, rest)

-- The monthly counters are the counts and the sum over the month's orders, by current status, so that
-- an expired order that was completed later counts as completed only: the
-- sales of the completed orders, the number of completed, expired and refunded ones, and of the
-- completed ones those with and those without a coupon.
pub monthly_summary-Counts :
    (has_coupon : ℕ → Bool) (orders : List (ℕ × Order))
    → Counts has_coupon orders empty_summary (monthly_summary has_coupon orders)
unfolding monthly_summary
monthly_summary-Counts has_coupon orders = tally_all-Counts has_coupon orders empty_summary
