-- ===== src/Examples/Sales.antt =====
-- Examples of the metrics and of the date helper.
use recharge_plataform_api.Prelude.{ℕ, ◌*◌, ◌≡◌, List, [], ◌∷◌, length, sum_if, count_if, ◌==◌}
use recharge_plataform_api.Prelude.Int.{pos, ◌-ℤ◌}
use recharge_plataform_api.Schema.{Order, completed, expired}
use recharge_plataform_api.Metrics.Tally.{is_completed, empty_summary, monthly_summary}
use recharge_plataform_api.Metrics.Tally.Laws.{Counts, monthly_summary-Counts}
use recharge_plataform_api.Metrics.ByProduct.{sale_of, group_by_product}
use recharge_plataform_api.Metrics.ByProduct.Laws.{
  sales_of, orders_of, all_sales, all_orders, group_by_product_lem, group_by_product_total,
}
use recharge_plataform_api.Utils.Date.{get_hours_ago_in_brazil, get_hours_ago_in_brazil_lem}
use recharge_plataform_api.Examples.Data.{order}

abbrev orders : List (ℕ × Order)
orders =
    (0, record order { order_status = completed })
    ∷ (1, record order { order_status = expired })
    ∷ (2, record order { order_status = completed; product_id = 8; price = 50 })
    ∷ []

monthly_summary-Counts_example :
    Counts (λ id. id == 0) orders empty_summary (monthly_summary (λ id. id == 0) orders)
monthly_summary-Counts_example = monthly_summary-Counts (λ id. id == 0) orders

group_by_product_example :
    (sales_of 5 (group_by_product orders)
      ≡ sum_if (λ o. o.1.product_id == 5) (λ o. sale_of o.1) orders)
    × (orders_of 5 (group_by_product orders) ≡ count_if (λ o. o.1.product_id == 5) orders)
group_by_product_example = group_by_product_lem 5 orders

group_by_product_total_example :
    (all_sales (group_by_product orders)
      ≡ sum_if (λ o. is_completed o.1.order_status) (λ o. o.1.price) orders)
    × (all_orders (group_by_product orders) ≡ length orders)
group_by_product_total_example = group_by_product_total orders

get_hours_ago_in_brazil_example :
    get_hours_ago_in_brazil (λ t. t -ℤ pos 10800000) (pos 90000000) 24
    ≡ pos 90000000 -ℤ pos (24 * 60 * 60 * 1000)
get_hours_ago_in_brazil_example =
    get_hours_ago_in_brazil_lem (λ t. t -ℤ pos 10800000) (pos 90000000) 24
