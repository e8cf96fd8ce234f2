-- ===== src/Bravive/Frame.antt =====
-- What the payment handlers call elsewhere leaves payments, orders and recharges alone: the Bigo
-- services, the coupon counters and the metrics write other tables.
use recharge_plataform_api.Prelude.{ℕ, ◌≡◌, refl, none}
use recharge_plataform_api.Prelude.Text.{Text}
use recharge_plataform_api.Prisma.{Prisma}
use recharge_plataform_api.Utils.Calendar.{Calendar}
use recharge_plataform_api.Schema.{Order, Payment, Recharge, RequestBody}
use recharge_plataform_api.Database.{World, Result, ok, err, handle_error}
use recharge_plataform_api.Database.Frame.{Keeps}
use recharge_plataform_api.Bigo.Request.{Exchange}
use recharge_plataform_api.Bigo.Service.{diamond_recharge}
use recharge_plataform_api.Bigo.Retry.{process_specific_retry}
use recharge_plataform_api.Bigo.Frame.{diamond_recharge-Keeps, process_specific_retry-Keeps}
use recharge_plataform_api.Order.Usage.{
  confirm_usages, confirm_coupon_usage, revert_usages, revert_coupon_usage,
}
use recharge_plataform_api.Order.Usage.Frame.{confirm_coupon_usage-Keeps, revert_coupon_usage-Keeps}
use recharge_plataform_api.Metrics.{recalculate_at, update_metrics_for_order}
use recharge_plataform_api.Metrics.Frame.{update_metrics_keeps}

swallowed :
    {S : Type 0} (c : Result (Unit {0}) × S) → (handle_error (λ e s. (ok tt, s)) c).0 ≡ ok tt
swallowed (ok u, s) = refl
swallowed (err e, s) = refl

module _ (P : Prisma) where
  abbrev pub sale_rows : World P → P.Table Payment × P.Table Order × P.Table Recharge
  sale_rows w = (w.payments, w.orders, w.recharges)

  pub send-Keeps_rows :
      (dto : RequestBody) (generated : Text) (x : Exchange) (now : ℕ)
      → Keeps sale_rows (diamond_recharge P dto none generated x now)
  send-Keeps_rows dto generated x now =
      diamond_recharge-Keeps P sale_rows (λ w t. refl) (λ w ts n m. refl) dto none generated x now

  pub confirm-Keeps_rows :
      (calendar : Calendar) (order_id now : ℕ)
      → Keeps sale_rows (confirm_coupon_usage P calendar order_id now)
  confirm-Keeps_rows calendar order_id now =
      confirm_coupon_usage-Keeps P calendar sale_rows (λ w t. refl) (λ w t. refl) order_id now

  pub revert-Keeps_rows :
      (calendar : Calendar) (order_id : ℕ)
      → Keeps sale_rows (revert_coupon_usage P calendar order_id)
  revert-Keeps_rows calendar order_id =
      revert_coupon_usage-Keeps P calendar sale_rows (λ w t. refl) (λ w t. refl) order_id

  metrics_at_keep :
      (calendar : Calendar) (store instant : ℕ) (w : World P)
      → sale_rows (recalculate_at P calendar store instant w) ≡ sale_rows w
  unfolding recalculate_at
  metrics_at_keep calendar store instant w = refl

  pub metrics_keep_rows :
      (calendar : Calendar) (order_id : ℕ) (w : World P)
      → sale_rows (update_metrics_for_order P calendar order_id w) ≡ sale_rows w
  metrics_keep_rows calendar order_id w =
      update_metrics_keeps P calendar sale_rows (metrics_at_keep calendar) order_id w

  -- Both swallow their errors.
  pub confirm-ok :
      (calendar : Calendar) (order_id now : ℕ) (w : World P)
      → (confirm_coupon_usage P calendar order_id now w).0 ≡ ok tt
  unfolding confirm_coupon_usage
  confirm-ok calendar order_id now w = swallowed (confirm_usages P calendar order_id now w)

  pub revert-ok :
      (calendar : Calendar) (order_id : ℕ) (w : World P)
      → (revert_coupon_usage P calendar order_id w).0 ≡ ok tt
  unfolding revert_coupon_usage
  revert-ok calendar order_id w = swallowed (revert_usages P calendar order_id w)

  -- A retry of a recharge writes neither payments nor orders nor recharges, whatever it finds and
  -- whatever the API answers: an order that waits for its recharge stays as it is.
  pub retry_keeps_order :
      (id attempt : ℕ) (generated : Text) (x : Exchange) (now : ℕ) (w : World P)
      → let w' = (process_specific_retry P id attempt generated x now w).1 in
        (w'.payments ≡ w.payments) × (w'.orders ≡ w.orders) × (w'.recharges ≡ w.recharges)
  retry_keeps_order id attempt generated x now w =
      let h =
        (process_specific_retry-Keeps P sale_rows (λ w t. refl) (λ w ts n m. refl) id attempt
            generated x now).kept
          w in
      (λ i. (h i).0, λ i. (h i).1, λ i. (h i).2)
