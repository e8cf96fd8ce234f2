-- ===== src/Metrics/ByProduct.antt =====
-- The grouping of `recalculateMonthlyByProductMetrics`: a `Map` from products to their totals, in the
-- order of first insertion.
pub mod Laws
use recharge_plataform_api.Prelude.{
  ℕ, ◌+◌, Bool, Option, none, some, List, [], ◌∷◌, ◌==◌, if◌then◌else◌,
}
use recharge_plataform_api.Schema.{Order}
use recharge_plataform_api.Metrics.Tally.{is_completed}

pub record ProductMetrics : Type 0 where
  pub total_sales : ℕ
  pub total_orders : ℕ

-- One order is added to the entry of its product, which is created with zeros if it is missing.
add_order : ℕ → ℕ → List (ℕ × ProductMetrics) → List (ℕ × ProductMetrics)
add_order product sale [] = (product, record { total_sales = 0 + sale; total_orders = 0 + 1 }) ∷ []
add_order product sale ((k, m) ∷ ms) =
    let rest = add_order product sale ms in
    if k == product
    then (k, record { total_sales = m.total_sales + sale; total_orders = m.total_orders + 1 }) ∷ ms
    else (k, m) ∷ rest

-- What an order adds to the sales: its price if it is completed.
abbrev pub sale_of : Order → ℕ
sale_of o = if is_completed o.order_status then o.price else 0

add_orders : List (ℕ × Order) → List (ℕ × ProductMetrics) → List (ℕ × ProductMetrics)
unfolding add_order
add_orders [] ms = ms
add_orders ((id, o) ∷ os) ms = add_orders os (add_order o.product_id (sale_of o) ms)

unfoldable pub group_by_product : List (ℕ × Order) → List (ℕ × ProductMetrics)
unfolding add_orders
group_by_product orders = add_orders orders []
