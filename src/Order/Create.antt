-- ===== src/Order/Create.antt =====
-- The transaction of `create`: the rows of a new order. What the method has found out before it
-- (package, price, number, answer of Bravive, coupon) comes as a record. The ids that `orderItem`
-- refers to stand in the row of the order; the name of the product, which nothing reads, is left out.
pub mod Laws
use recharge_plataform_api.Prelude.{ℕ, Bool, Option, none, some, [], ◌∷◌, head?, map_option}
use recharge_plataform_api.Prelude.Text.{Text, codes, text_eq}
use recharge_plataform_api.Prisma.{Prisma, p2002}
use recharge_plataform_api.Schema.{
  Order, created, Payment, payment_pending, Recharge, recharge_pending, PackageInfo, CouponUsage,
}
use recharge_plataform_api.Database.{
  World, Action, Result, ok, err, client_error, pure, transaction, on_option, ◌>>=◌, ◌>>◌,
}

-- The fields of Bravive's answer that are stored.
pub record BraviveResponse : Type 0 where
  pub id : Option Text
  pub pix_qr_code : Option Text
  pub pix_code : Option Text

pub record OrderData : Type 0 where
  pub order_number : Text
  pub price : ℕ
  pub base_price : ℕ
  pub store_id : ℕ
  pub user_id : ℕ
  pub package_id : ℕ
  pub package_name : Text
  pub img_card_url : Text
  pub product_id : ℕ
  pub amount_credits : ℕ
  pub user_id_for_recharge : Text
  pub payment_name : Text
  pub bravive : Option BraviveResponse
  pub coupon : Option ℕ

-- `text || null`
abbrev text_or_null : Option Text → Option Text
text_or_null none = none
text_or_null (some []) = none
text_or_null (some (c ∷ cs)) = some (c ∷ cs)

abbrev pub new_payment : ℕ → OrderData → Payment
new_payment now d = record {
  name = d.payment_name;
  status = payment_pending;
  status_updated_at = some now;
  qr_code = on_option none (λ b. text_or_null b.pix_qr_code) d.bravive;
  qr_codetext_copy_paste = on_option none (λ b. text_or_null b.pix_code) d.bravive;
  bravive_id = on_option none (λ b. text_or_null b.id) d.bravive;
  payment_provider = map_option (λ b. codes "bravive") d.bravive;
}

abbrev pub new_recharge : ℕ → OrderData → Recharge
new_recharge now d = record {
  user_id_for_recharge = d.user_id_for_recharge;
  status = recharge_pending;
  amount_credits = d.amount_credits;
  status_updated_at = some now;
}

abbrev pub new_package_info : OrderData → PackageInfo
new_package_info d = record {
  package_id = d.package_id;
  name = d.package_name;
  user_id_for_recharge = d.user_id_for_recharge;
  img_card_url = d.img_card_url;
}

-- The order with the ids of its payment, its recharge and its package.
abbrev pub new_order : ℕ → OrderData → ℕ → ℕ → ℕ → Order
new_order now d payment_id recharge_id package_info_id = record {
  order_number = d.order_number;
  price = d.price;
  base_price = d.base_price;
  order_status = created;
  payment_id = payment_id;
  product_id = d.product_id;
  recharge_id = recharge_id;
  package_id = package_info_id;
  created_at = now;
  store_id = d.store_id;
  user_id = d.user_id;
}

module _ (P : Prisma) where
  abbrev create_package_info : PackageInfo → Action (World P) ℕ
  create_package_info r w =
      let (id, t) = P.create w.package_infos r in (ok id, record w { package_infos = t })

  abbrev create_recharge : Recharge → Action (World P) ℕ
  create_recharge r w = let (id, t) = P.create w.recharges r in (ok id, record w { recharges = t })

  abbrev create_payment : Payment → Action (World P) ℕ
  create_payment r w = let (id, t) = P.create w.payments r in (ok id, record w { payments = t })

  -- `orderNumber` is unique.
  abbrev create_order : Order → Action (World P) ℕ
  create_order r w =
      let (id, t) = P.create w.orders r in
      on_option (ok id, record w { orders = t }) (λ _. (err (client_error P p2002), w))
        (head? (P.find_many w.orders (λ o. text_eq o.order_number r.order_number)))

  -- The pair of coupon and order is unique; the order is new.
  abbrev create_coupon_usage : CouponUsage → Action (World P) (Unit {0})
  create_coupon_usage r w = (ok tt, record w { coupon_usages = (P.create w.coupon_usages r).1 })

  unfoldable pub create_rows : ℕ → OrderData → Action (World P) ℕ
  create_rows now d = transaction (do
    package_info_id ← create_package_info (new_package_info d)
    recharge_id ← create_recharge (new_recharge now d)
    payment_id ← create_payment (new_payment now d)
    id ← create_order (new_order now d payment_id recharge_id package_info_id)
    on_option (pure tt) (λ c. create_coupon_usage (record { coupon_id = c; order_id = id }))
        d.coupon
    pure id)
