-- ===== src/Bravive/Webhook.antt =====
-- `handleWebhook` and `checkAndUpdatePaymentStatus` of `bravive.service.ts`.
use recharge_plataform_api.Prelude.{
  ℕ, Bool, true, false, ◌&&◌, Option, none, some, [], ◌++◌, ◌==◌, head?, map_option, if◌then◌else◌,
}
use recharge_plataform_api.Prelude.Text.{Text, codes}
use recharge_plataform_api.Prisma.{Prisma}
use recharge_plataform_api.Schema.{
  Order, Payment, PaymentStatus, payment_pending, payment_approved, payment_rejected, Recharge,
  is_same_text,
}
use recharge_plataform_api.Database.{
  World, Action, Result, ok, err, http_exception, bad_request, message_of, pure, try_catch,
  on_option, ◌>>=◌, ◌>>◌,
}
use recharge_plataform_api.Bigo.Service.{is_blank, or_text, lift}
use recharge_plataform_api.Bravive.Status.{
  WebhookStatus, approved, rejected, canceled, chargeback, refunded, in_dispute, unhandled,
  to_upper, webhook_status, map_webhook_status_to_payment_status, internal_status, same_status,
}
use recharge_plataform_api.Bravive.Handlers.{
  Outside, handle_approved_payment, handle_rejected_or_canceled_payment, handle_refunded_payment,
  handle_chargeback_payment, handle_disputed_payment,
}

-- The fields of the webhook's body that are read.
pub record WebhookDto : Type 0 where
  pub id : Option Text
  pub status : Option Text

-- A payment with its order and its recharge, as `include` gives them.
pub record Included : Type 0 where
  pub payment_id : ℕ
  pub payment : Payment
  pub order_id : ℕ
  pub order : Order
  pub recharge : Option (ℕ × Recharge)

module _ (P : Prisma) where
  -- `where: { braviveId, paymentProvider: 'bravive' }`
  abbrev pub is_bravive_payment : Text → Payment → Bool
  is_bravive_payment bravive_id p =
      is_same_text p.bravive_id (some bravive_id)
      && is_same_text p.payment_provider (some (codes "bravive"))

  -- `payment?.order?.orderItem?.recharge`
  unfoldable pub find_included : Text → World P → Option Included
  find_included bravive_id w =
      on_option none
        (λ (p : ℕ × Payment).
          on_option none
            (λ (o : ℕ × Order). some (record {
              payment_id = p.0;
              payment = p.1;
              order_id = o.0;
              order = o.1;
              recharge =
                  map_option (λ r. (o.1.recharge_id, r))
                    (P.find_unique w.recharges o.1.recharge_id);
            }))
            (head? (P.find_many w.orders (λ o. o.payment_id == p.0))))
        (head? (P.find_many w.payments (is_bravive_payment bravive_id)))

  module _ (out : Outside) where
    -- The `switch` on the status.
    unfoldable pub dispatch : WebhookStatus → Included → Action (World P) (Unit {0})
    dispatch approved i =
        handle_approved_payment P out i.payment_id i.order_id i.recharge i.order.order_number
    dispatch rejected i = handle_rejected_or_canceled_payment P out i.payment_id i.order_id
    dispatch canceled i = handle_rejected_or_canceled_payment P out i.payment_id i.order_id
    dispatch refunded i = handle_refunded_payment P out i.payment_id i.order_id
    dispatch chargeback i = handle_chargeback_payment P out i.payment_id i.order_id i.recharge
    dispatch in_dispute i = handle_disputed_payment P out i.payment_id
    dispatch unhandled i = pure tt

    -- `targetPaymentStatus && payment.status === targetPaymentStatus`
    abbrev pub already_done : WebhookStatus → Included → Bool
    already_done s i =
        on_option false (λ t. same_status i.payment.status t)
          (map_webhook_status_to_payment_status s)

    -- The part of `handleWebhook` after the payment was found and the status read.
    unfoldable pub process_status : WebhookStatus → Included → Action (World P) (Unit {0})
    unfolding dispatch
    process_status s i = if already_done s i then pure tt else dispatch s i

    unfoldable pub handle_webhook : WebhookDto → Action (World P) (Unit {0})
    unfolding process_status
    handle_webhook dto w =
        if is_blank dto.id
        then (ok tt, w)
        else on_option (ok tt, w)
            (λ i.
              if is_blank dto.status
              then (ok tt, w)
              else process_status (webhook_status (to_upper (or_text dto.status []))) i w)
            (find_included (or_text dto.id []) w)

    -- What the manual check does once the status has changed.
    abbrev pub apply_internal : PaymentStatus → Included → Action (World P) (Unit {0})
    apply_internal payment_approved i =
        handle_approved_payment P out i.payment_id i.order_id i.recharge i.order.order_number
    apply_internal payment_rejected i =
        handle_rejected_or_canceled_payment P out i.payment_id i.order_id
    apply_internal payment_pending i = pure tt

    -- `{ status, updated }` of `checkAndUpdatePaymentStatus`, from what `getPayment` yields: the status
    -- that Bravive reports, or an error.
    unfoldable pub check_and_update_payment_status :
        Text → Result (Option Text) → Action (World P) (Text × Bool)
    check_and_update_payment_status bravive_id reported =
        try_catch
          (do
            status ← lift reported
            (λ w.
                let shown : Text = or_text status (codes "UNKNOWN") in
                on_option (ok (shown, false), w)
                  (λ i.
                    on_option (ok (shown, false), w)
                      (λ t.
                        if same_status i.payment.status t
                        then (ok (shown, false), w)
                        else (apply_internal t i >> pure (shown, true)) w)
                      (internal_status (to_upper (or_text status []))))
                  (find_included bravive_id w)))
          (λ e w. (
            err (
                http_exception bad_request
                  (codes "Failed to check payment status: " ++ message_of e)),
            w,
          ))
