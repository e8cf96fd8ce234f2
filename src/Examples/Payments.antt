-- ===== src/Examples/Payments.antt =====
-- Examples of the payment handlers.
use recharge_plataform_api.Prelude.{◌≡◌, refl, some}
use recharge_plataform_api.Prelude.Text.{codes}
use recharge_plataform_api.Prisma.Memory.{memory}
use recharge_plataform_api.Database.{ok}
use recharge_plataform_api.Bigo.Retry.{process_specific_retry}
use recharge_plataform_api.Order.Usage.{uncount_use}
use recharge_plataform_api.Bravive.Status.{refunded, webhook_status}
use recharge_plataform_api.Bravive.Webhook.{
  WebhookDto, Included, handle_webhook, find_included, process_status,
  check_and_update_payment_status,
}
use recharge_plataform_api.Bravive.Once.{handle_webhook_twice}
use recharge_plataform_api.Bravive.Manual.{check-handle_webhook}
use recharge_plataform_api.Bravive.Refund.{refund_twice}
use recharge_plataform_api.Bravive.Frame.{retry_keeps_order}
use recharge_plataform_api.Examples.Data.{
  shop, out, order, payment, recharge, coupon, month, answering, only_row,
}

abbrev approved_webhook : WebhookDto
approved_webhook = record { id = some (codes "b1"); status = some (codes "approved") }

abbrev included : Included
included = record {
  payment_id = 0;
  payment = payment;
  order_id = 0;
  order = order;
  recharge = some (0, recharge);
}

found_in_shop : find_included memory (codes "b1") shop ≡ some included
unfolding find_included
found_in_shop = refl

handle_webhook_twice_example :
    let w' = (handle_webhook memory out approved_webhook shop).1 in
    handle_webhook memory out approved_webhook w' ≡ (ok tt, w')
unfolding webhook_status
handle_webhook_twice_example =
    handle_webhook_twice memory out out approved_webhook included shop refl refl refl found_in_shop
      (λ j q there passed. only_row payment j q there)

refund_twice_example :
    let w' = (process_status memory out refunded included shop).1 in
    let w'' = (process_status memory out refunded included w').1 in
    (w'.payments ≡ shop.payments)
    × (memory.find_unique w''.coupons 0
        ≡ some (uncount_use order.price (uncount_use order.price coupon)))
refund_twice_example =
    refund_twice memory out included 0 0 order coupon month shop refl (refl, refl, refl)
      (refl, refl, λ j s there same. only_row month j s there)

retry_keeps_order_example :
    let w' = (process_specific_retry memory 0 1 (codes "s4") answering 95000000 shop).1 in
    (w'.payments ≡ shop.payments) × (w'.orders ≡ shop.orders) × (w'.recharges ≡ shop.recharges)
retry_keeps_order_example = retry_keeps_order memory 0 1 (codes "s4") answering 95000000 shop

check-handle_webhook_example :
    (check_and_update_payment_status memory out (codes "b1") (ok (some (codes "approved"))) shop).1
    ≡ (handle_webhook memory out approved_webhook shop).1
unfolding webhook_status
check-handle_webhook_example =
    check-handle_webhook memory out (codes "b1") (codes "approved") shop refl refl refl
