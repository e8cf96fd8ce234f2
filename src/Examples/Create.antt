-- ===== src/Examples/Create.antt =====
-- Examples of the creation of an order.
use recharge_plataform_api.Prelude.{
  ℕ, ◌+◌, ◌==◌, ◌≤◌, true, arith, ap, not, false, ==_self, ◌≡◌, ◌≢◌, refl, some,
}
use recharge_plataform_api.Prelude.Text.{codes}
use recharge_plataform_api.Prisma.Memory.{memory}
use recharge_plataform_api.Schema.{Order, completed}
use recharge_plataform_api.Database.{World, ok}
use recharge_plataform_api.Order.Create.{OrderData, new_order, new_payment, create_rows}
use recharge_plataform_api.Order.Create.Laws.{one_time_coupon_used}
use recharge_plataform_api.Order.Coupon.{check_coupon, accepted}
use recharge_plataform_api.Order.Recent.{PriceTest}
use recharge_plataform_api.Examples.Data.{shop, money, coupon}

abbrev order_data : OrderData
order_data = record {
  order_number = codes "20240102";
  price = 900;
  base_price = 1000;
  store_id = 7;
  user_id = 4;
  package_id = 2;
  package_name = codes "60 diamonds";
  img_card_url = codes "img";
  product_id = 5;
  amount_credits = 60;
  user_id_for_recharge = codes "u2";
  payment_name = codes "PIX";
  bravive = some (record {
    id = some (codes "b2");
    pix_qr_code = some (codes "qr");
    pix_code = some (codes "t");
  });
  coupon = some 0;
}

abbrev ordered : World memory
ordered = (create_rows memory 90000000 order_data shop).1

-- The order is paid.
abbrev paid_order : Order
paid_order = record (new_order 90000000 order_data 1 1 0) { order_status = completed }

abbrev paid : World memory
paid = record ordered {
  orders = memory.update ordered.orders 1 (λ (o : Order). record o { order_status = completed });
}

rows_created : (create_rows memory 90000000 order_data shop).0 ≡ ok 1
unfolding create_rows
rows_created = refl

paid_there : memory.find_unique paid.orders 1 ≡ some paid_order
unfolding create_rows
paid_there = refl

payment_there : memory.find_unique paid.payments 1 ≡ some (new_payment 90000000 order_data)
unfolding create_rows
payment_there = refl

one_time_coupon_used_example :
    check_coupon memory money (0, coupon) 1000 7 4 (some (codes "u3")) 95000000 paid
    ≢ accepted 100 900 0
one_time_coupon_used_example =
    one_time_coupon_used memory 90000000 order_data 0 coupon shop paid money 1000 7
      (some (codes "u3")) 95000000 100 900 0 1 paid_order (new_payment 90000000 order_data) refl
      refl rows_created (λ i u h. h) paid_there refl (λ e. cc e) (λ e. cc e) payment_there
      (λ e. cc e)

pub equal_near : (a b : ℕ) → (a == b) ≡ true → (a ≤ b + 1) × (b ≤ a + 1)
equal_near a b h = ground arith

pub same_price : (a b : ℕ) → not (a == b) ≡ false → (a == b) ≡ true
same_price a b h = ground arith

abbrev pub prices : PriceTest
prices = record {
  price_matches = λ a b. a == b;
  matches_same = λ a. ==_self a;
  matches_near = λ a b h. equal_near a b h;
  price_differs = λ a b. not (a == b);
  differs_same = λ a. ap not (==_self a);
  differs_near = λ a b h. equal_near a b (same_price a b h);
}
