-- ===== src/Bravive/Refund.antt =====
-- A refund that is reported twice: `handleRefundedPayment` leaves the payment as it is, so that the
-- check on a status that is there already does not see the first one.
use recharge_plataform_api.Prelude.{ℕ, ◌≡◌, refl, false, some}
use recharge_plataform_api.Prisma.{Prisma}
use recharge_plataform_api.Schema.{
  Order, payment_rejected, Coupon, InfluencerMonthlySales, refounded,
}
use recharge_plataform_api.Prelude.Int.{pos, ◌-ℤ◌}
use recharge_plataform_api.Database.{World, ok}
use recharge_plataform_api.Database.Laws.{find-update_self}
use recharge_plataform_api.Order.Usage.{add_sales, uncount_use}
use recharge_plataform_api.Order.Usage.RoundTrip.{
  HasOneUsage, IsMonthRecord, add_sales-IsMonthRecord, revert_coupon_usage_lem,
}
use recharge_plataform_api.Bravive.Status.{
  refunded, map_webhook_status_to_payment_status, same_status,
}
use recharge_plataform_api.Bravive.Handlers.{Outside, with_order_status, handle_refunded_payment}
use recharge_plataform_api.Bravive.Webhook.{Included, process_status}

module _ (P : Prisma) (out : Outside) where
  refund_rows : ℕ → ℕ → ℕ → Order → World P → World P
  refund_rows order_id cid m o w = record w {
    orders = P.update w.orders order_id (with_order_status refounded);
    coupons = P.update w.coupons cid (uncount_use o.price);
    monthly_sales = P.update w.monthly_sales m (add_sales (pos 0 -ℤ pos o.price));
  }

  refund_lem :
      (payment_id order_id cid m : ℕ) (o : Order) (c : Coupon) (r : InfluencerMonthlySales)
      (w : World P)
      → HasOneUsage P out.calendar order_id o cid c w
      → IsMonthRecord P out.calendar c.influencer_id o.created_at m r w
      → handle_refunded_payment P out payment_id order_id w
        ≡ (ok tt, refund_rows order_id cid m o w)
  unfolding handle_refunded_payment refund_rows
  refund_lem payment_id order_id cid m o c r w (there, one, found) month =
      let w1 : World P = record w {
        orders = P.update w.orders order_id (with_order_status refounded);
      } in
      rw (
        there,
        revert_coupon_usage_lem P out.calendar order_id cid m (with_order_status refounded o) c r w1
            (find-update_self P w.orders order_id (with_order_status refounded) there, one, found)
            month,
      )

  -- REFUNDED webhooks for a payment that is not rejected, whose order has one coupon usage, the
  -- influencer having a record of the month of the order: the first leaves the payments as they were, and
  -- the two together take two uses and twice the price off the coupon.
  pub refund_twice :
      (i : Included) (cid m : ℕ) (o : Order) (c : Coupon) (r : InfluencerMonthlySales) (w : World P)
      → same_status i.payment.status payment_rejected ≡ false
      → HasOneUsage P out.calendar i.order_id o cid c w
      → IsMonthRecord P out.calendar c.influencer_id o.created_at m r w
      → let w' = (process_status P out refunded i w).1 in
        let w'' = (process_status P out refunded i w').1 in
        (w'.payments ≡ w.payments)
        × (P.find_unique w''.coupons cid ≡ some (uncount_use o.price (uncount_use o.price c)))
  unfolding process_status map_webhook_status_to_payment_status refund_rows
  refund_twice i cid m o c r w open_status (there, one, found) month =
      let o' : Order = with_order_status refounded o in
      let c' : Coupon = uncount_use o.price c in
      let w1 : World P = refund_rows i.order_id cid m o w in
      let found' : P.find_unique w1.coupons cid ≡ some c' =
        find-update_self P w.coupons cid (uncount_use o.price) found in
      rw
        (
          open_status,
          refund_lem i.payment_id i.order_id cid m o c r w (there, one, found) month,
          refund_lem i.payment_id i.order_id cid m o' c' (add_sales (pos 0 -ℤ pos o.price) r) w1
              (
                find-update_self P w.orders i.order_id (with_order_status refounded) there,
                one,
                found',
              )
              (add_sales-IsMonthRecord P out.calendar c.influencer_id o.created_at m
                (pos 0 -ℤ pos o.price) r w month),
        )
        (refl, find-update_self P w1.coupons cid (uncount_use o.price) found')
