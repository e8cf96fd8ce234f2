-- ===== src/Metrics/ByProduct/Laws.antt =====
-- The totals of the products against the orders of the month.
use recharge_plataform_api.Prelude.{
  ℕ, ◌+◌, ◌≡◌, List, [], ◌∷◌, arith, ◌==◌, length, sum_if, count_if, if◌then◌else◌,
}
use recharge_plataform_api.Schema.{Order}
use recharge_plataform_api.Metrics.Tally.{is_completed}
use recharge_plataform_api.Metrics.ByProduct.{
  ProductMetrics, add_order, add_orders, sale_of, group_by_product,
}

-- The totals of a product, zero where the map has no entry.
abbrev pub sales_of : ℕ → List (ℕ × ProductMetrics) → ℕ
sales_of p [] = 0
sales_of p ((k, m) ∷ ms) = if k == p then m.total_sales else sales_of p ms

abbrev pub orders_of : ℕ → List (ℕ × ProductMetrics) → ℕ
orders_of p [] = 0
orders_of p ((k, m) ∷ ms) = if k == p then m.total_orders else orders_of p ms

add_order_lem :
    (p product sale : ℕ) (ms : List (ℕ × ProductMetrics))
    → (sales_of p (add_order product sale ms) ≡ sales_of p ms + (if product == p then sale else 0))
      × (orders_of p (add_order product sale ms) ≡ orders_of p ms + (if product == p then 1 else 0))
unfolding add_order
add_order_lem p product sale [] = ground arith
add_order_lem p product sale ((k, m) ∷ ms) = ground (arith, add_order_lem p product sale ms)

add_orders_lem :
    (p : ℕ) (orders : List (ℕ × Order)) (ms : List (ℕ × ProductMetrics))
    → (sales_of p (add_orders orders ms)
        ≡ sales_of p ms + sum_if (λ o. o.1.product_id == p) (λ o. sale_of o.1) orders)
      × (orders_of p (add_orders orders ms)
          ≡ orders_of p ms + count_if (λ o. o.1.product_id == p) orders)
unfolding add_orders
add_orders_lem p [] ms = omega arith
add_orders_lem p ((id, o) ∷ os) ms = omega (
  arith,
  add_order_lem p o.product_id (sale_of o) ms,
  add_orders_lem p os (add_order o.product_id (sale_of o) ms),
)

-- Each product's totals in the map are those of its own orders in the list: the sum of the completed
-- prices and the number of orders.
pub group_by_product_lem :
    (p : ℕ) (orders : List (ℕ × Order))
    → (sales_of p (group_by_product orders)
        ≡ sum_if (λ o. o.1.product_id == p) (λ o. sale_of o.1) orders)
      × (orders_of p (group_by_product orders) ≡ count_if (λ o. o.1.product_id == p) orders)
unfolding group_by_product
group_by_product_lem p orders = omega (arith, add_orders_lem p orders [])

-- The sums over all entries of the map.
abbrev pub all_sales : List (ℕ × ProductMetrics) → ℕ
all_sales [] = 0
all_sales ((k, m) ∷ ms) = m.total_sales + all_sales ms

abbrev pub all_orders : List (ℕ × ProductMetrics) → ℕ
all_orders [] = 0
all_orders ((k, m) ∷ ms) = m.total_orders + all_orders ms

add_order_sums :
    (product sale : ℕ) (ms : List (ℕ × ProductMetrics))
    → (all_sales (add_order product sale ms) ≡ all_sales ms + sale)
      × (all_orders (add_order product sale ms) ≡ all_orders ms + 1)
unfolding add_order
add_order_sums product sale [] = ground arith
add_order_sums product sale ((k, m) ∷ ms) = ground (arith, add_order_sums product sale ms)

add_orders_sums :
    (orders : List (ℕ × Order)) (ms : List (ℕ × ProductMetrics))
    → (all_sales (add_orders orders ms)
        ≡ all_sales ms + sum_if (λ o. is_completed o.1.order_status) (λ o. o.1.price) orders)
      × (all_orders (add_orders orders ms) ≡ all_orders ms + length orders)
unfolding add_orders
add_orders_sums [] ms = omega arith
add_orders_sums ((id, o) ∷ os) ms = omega (
  arith,
  add_order_sums o.product_id (sale_of o) ms,
  add_orders_sums os (add_order o.product_id (sale_of o) ms),
)

-- The products share out the month: their sales add up to the sales of all completed orders, and their
-- orders to all orders.
pub group_by_product_total :
    (orders : List (ℕ × Order))
    → (all_sales (group_by_product orders)
        ≡ sum_if (λ o. is_completed o.1.order_status) (λ o. o.1.price) orders)
      × (all_orders (group_by_product orders) ≡ length orders)
unfolding group_by_product
group_by_product_total orders = omega (arith, add_orders_sums orders [])
