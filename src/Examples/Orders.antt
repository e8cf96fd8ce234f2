-- ===== src/Examples/Orders.antt =====
-- Examples of coupons and of the expiry of orders.
use recharge_plataform_api.Prelude.{
  find, not, ℕ, ◌+◌, ◌≤◌, ◌≡◌, refl, arith, true, none, some, [], ◌∷◌, inr,
}
use recharge_plataform_api.Prelude.Text.{codes}
use recharge_plataform_api.Prisma.Memory.{memory}
use recharge_plataform_api.Schema.{Coupon}
use recharge_plataform_api.Database.{World, ok, err, http_exception, bad_request, on_option}
use recharge_plataform_api.Order.Number.{is_taken, unique_order_number}
use recharge_plataform_api.Order.Number.Laws.{unique_order_number_lem}
use recharge_plataform_api.Order.Usage.{confirm_coupon_usage, revert_coupon_usage, uncount_use}
use recharge_plataform_api.Order.Usage.RoundTrip.{revert-confirm_coupon_usage}
use recharge_plataform_api.Order.Usage.Partial.{revert_without_month}
use recharge_plataform_api.Order.Expiry.{check_and_expire_orders}
use recharge_plataform_api.Order.Expiry.Laws.{check_and_expire_keeps, check_and_expire_again}
use recharge_plataform_api.Order.Coupon.{is_coupon, validate_coupon, accepted}
use recharge_plataform_api.Order.Coupon.Laws.{IsEligible, validate_coupon_accepted}
use recharge_plataform_api.Examples.Data.{
  calendar, shop, money, order, payment, coupon, month, only_row,
}

-- A shop with no order yet.
abbrev new_shop : World memory
new_shop = record shop { orders = []; coupon_usages = [] }

ten_percent :
    (j : ℕ) (c : Coupon) (p : ℕ)
    → memory.find_unique new_shop.coupons j ≡ some c
    → c.discount_percentage ≡ some p
    → p ≤ 10000
ten_percent j c p there percentage =
    let first : j ≡ 0 = only_row coupon j c there in
    let same : coupon ≡ c = cc (rw first at there) in
    let value : p ≡ 1000 = cc in rw value (omega arith)

accepted_in_shop :
    validate_coupon memory money (codes "TEN") 1000 7 4 (some (codes "u1")) 1000 new_shop
    ≡ accepted 100 900 0
unfolding validate_coupon
accepted_in_shop = refl

validate_coupon_accepted_example :
    (c : Coupon) × (memory.find_unique new_shop.coupons 0 ≡ some c)
    × (is_coupon memory (codes "TEN") 7 c ≡ true)
    × IsEligible memory 0 c 1000 7 4 (some (codes "u1")) 1000 new_shop
    × (100 + 900 ≡ 1000)
validate_coupon_accepted_example =
    validate_coupon_accepted memory money (codes "TEN") 1000 7 4 (some (codes "u1")) 1000 new_shop
      100 900 0 ten_percent accepted_in_shop

abbrev no_month : World memory
no_month = record shop { monthly_sales = [] }

revert-confirm_coupon_usage_example :
    let (res, w') =
      revert_coupon_usage memory calendar 0
        (confirm_coupon_usage memory calendar 0 90000000 shop).1 in
    (res ≡ ok tt)
    × ((j : ℕ) → memory.find_unique w'.coupons j ≡ memory.find_unique shop.coupons j)
    × ((j : ℕ) → memory.find_unique w'.monthly_sales j ≡ memory.find_unique shop.monthly_sales j)
revert-confirm_coupon_usage_example =
    revert-confirm_coupon_usage memory calendar 0 90000000 0 0 order coupon month shop
      (refl, refl, refl) (refl, refl, λ j s there same. only_row month j s there) (refl, refl)

revert_without_month_example :
    let (res, w') = revert_coupon_usage memory calendar 0 no_month in
    (res ≡ ok tt)
    × (memory.find_unique w'.coupons 0 ≡ some (uncount_use order.price coupon))
    × (w'.monthly_sales ≡ no_month.monthly_sales)
revert_without_month_example =
    revert_without_month memory calendar 0 0 order coupon no_month (refl, refl, refl) (omega arith)
      (λ j s there same. cc there)

check_and_expire_keeps_example :
    memory.find_unique
      (check_and_expire_orders memory calendar none [] none 5000 24 shop).1.orders
      0
    ≡ some order
check_and_expire_keeps_example =
    check_and_expire_keeps memory calendar none [] none 5000 24 shop 0 order payment refl refl
      (inr (inr (omega arith)))

unique_order_number_example :
    unique_order_number memory (λ n. codes "20240101") shop
    ≡ some (
        on_option
          (err (http_exception bad_request (codes "Failed to generate unique order number")))
          ok
          (find
            (λ n. not (is_taken memory (λ n. codes "20240101") shop n))
            (codes "20240101" ∷ codes "20240101" ∷ codes "20240101" ∷ codes "20240101" ∷ [])))
unique_order_number_example = unique_order_number_lem memory (λ n. codes "20240101") shop

check_and_expire_again_example :
    (check_and_expire_orders memory calendar none [] none 90000000 24
      (check_and_expire_orders memory calendar none [] none 90000000 24 shop).1).0
    ≡ 0
check_and_expire_again_example =
    check_and_expire_again memory calendar none [] none 90000000 24 shop
