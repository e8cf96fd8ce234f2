-- ===== src/Bravive/Handlers.antt =====
-- The handlers of `bravive.service.ts`: what each payment event does to the payment, its order, its
-- recharge, its coupon and the metrics. Emails are not modelled: their outcome is logged only.
use recharge_plataform_api.Prelude.{
  ℕ, zero, suc, Bool, true, false, ◌||◌, Option, none, some, [], ◌∷◌, if◌then◌else◌,
}
use recharge_plataform_api.Prelude.Text.{Text, codes}
use recharge_plataform_api.Prisma.{Prisma}
use recharge_plataform_api.Utils.Calendar.{Calendar}
use recharge_plataform_api.Schema.{
  Order, OrderStatus, processing, completed, expired, refounded, Payment, payment_approved,
  payment_rejected, Recharge, recharge_pending, recharge_approved, recharge_rejected, RequestBody,
}
use recharge_plataform_api.Database.{
  World, Action, ok, pure, transaction, try_catch, on_option, ◌>>◌, update_order, update_payment,
  update_recharge,
}
use recharge_plataform_api.Bigo.Request.{Exchange}
use recharge_plataform_api.Bigo.Service.{diamond_recharge}
use recharge_plataform_api.Order.Usage.{confirm_coupon_usage, revert_coupon_usage}
use recharge_plataform_api.Metrics.{update_metrics_for_order}

-- What a handler finds outside: the instant, the sequence id that is generated, what the Bigo API
-- answers, and the cost in BRL cents of an amount of credits, which the source computes in floats
-- from the rate of the environment.
pub record Outside : Type 0 where
  pub calendar : Calendar
  pub now : ℕ
  pub seqid : Text
  pub bigo : Exchange
  pub cost_of : ℕ → ℕ

abbrev pub as_approved : ℕ → Payment → Payment
as_approved now p = record p {
  status = payment_approved;
  status_updated_at = some now;
  qr_code = none;
  qr_codetext_copy_paste = none;
}

abbrev pub as_rejected : ℕ → Payment → Payment
as_rejected now p = record p { status = payment_rejected; status_updated_at = some now }

abbrev pub with_order_status : OrderStatus → Order → Order
with_order_status s o = record o { order_status = s }

abbrev pub recharge_as_pending : ℕ → Recharge → Recharge
recharge_as_pending now r = record r { status = recharge_pending; status_updated_at = some now }

abbrev pub recharge_as_approved : ℕ → Recharge → Recharge
recharge_as_approved now r = record r { status = recharge_approved; status_updated_at = some now }

abbrev pub recharge_as_rejected : ℕ → Recharge → Recharge
recharge_as_rejected now r = record r { status = recharge_rejected; status_updated_at = some now }

abbrev is_zero : ℕ → Bool
is_zero zero = true
is_zero (suc n) = false

abbrev is_empty : Text → Bool
is_empty [] = true
is_empty (c ∷ cs) = false

-- `rechargeId && amountCredits && bigoId`: the recharge, if it can be sent.
abbrev pub sendable : Option (ℕ × Recharge) → Option (ℕ × Recharge)
sendable none = none
sendable (some (id, r)) =
    if is_zero r.amount_credits || is_empty r.user_id_for_recharge then none else some (id, r)

module _ (P : Prisma) (out : Outside) where
  -- The first transaction of `handleApprovedPayment`.
  unfoldable pub approve_rows : ℕ → ℕ → Option (ℕ × Recharge) → Action (World P) (Unit {0})
  approve_rows payment_id order_id recharge = transaction (do
    update_payment P payment_id (as_approved out.now)
    update_order P order_id (with_order_status processing)
    on_option (pure tt) (λ (e : ℕ × Recharge). update_recharge P e.0 (recharge_as_pending out.now))
        recharge)

  -- The second one, after the recharge has been sent.
  unfoldable pub complete_rows : ℕ → ℕ → Action (World P) (Unit {0})
  complete_rows order_id recharge_id = transaction (do
    update_order P order_id (with_order_status completed)
    update_recharge P recharge_id (recharge_as_approved out.now))

  abbrev pub bigo_recharge_dto : Text → Recharge → RequestBody
  bigo_recharge_dto order_number r = record {
    recharge_bigoid = some r.user_id_for_recharge;
    bu_orderid = some order_number;
    value = some r.amount_credits;
    total_cost = some (out.cost_of r.amount_credits);
    currency = some (codes "BRL");
    seqid = none;
  }

  -- The body of the `try`: send, complete, confirm the coupon, update the metrics.
  unfoldable pub send_recharge : ℕ → Text → ℕ × Recharge → Action (World P) (Unit {0})
  unfolding complete_rows
  send_recharge order_id order_number e = do
    diamond_recharge P (bigo_recharge_dto order_number e.1) none out.seqid out.bigo out.now
    complete_rows order_id e.0
    confirm_coupon_usage P out.calendar order_id out.now
    (λ w. (ok tt, update_metrics_for_order P out.calendar order_id w))

  -- An error of Bigo is logged: the order stays PROCESSING.
  unfoldable pub handle_approved_payment :
      ℕ → ℕ → Option (ℕ × Recharge) → Text → Action (World P) (Unit {0})
  unfolding approve_rows send_recharge
  handle_approved_payment payment_id order_id recharge order_number = do
    approve_rows payment_id order_id recharge
    on_option (pure tt) (λ e. try_catch (send_recharge order_id order_number e) (λ error. pure tt))
        (sendable recharge)

  -- The recharge of the order, which the handler reads again, is rejected.
  abbrev pub reject_recharge : ℕ → Action (World P) (Unit {0})
  reject_recharge order_id w =
      on_option (ok tt, w)
        (λ (o : Order).
          on_option (ok tt, w)
            (λ (r : Recharge). update_recharge P o.recharge_id (recharge_as_rejected out.now) w)
            (P.find_unique w.recharges o.recharge_id))
        (P.find_unique w.orders order_id)

  unfoldable pub handle_rejected_or_canceled_payment : ℕ → ℕ → Action (World P) (Unit {0})
  handle_rejected_or_canceled_payment payment_id order_id = transaction (do
    update_payment P payment_id (as_rejected out.now)
    update_order P order_id (with_order_status expired)
    reject_recharge order_id)

  -- The payment is not written.
  unfoldable pub handle_refunded_payment : ℕ → ℕ → Action (World P) (Unit {0})
  handle_refunded_payment payment_id order_id = transaction (do
    update_order P order_id (with_order_status refounded)
    revert_coupon_usage P out.calendar order_id)

  unfoldable pub handle_chargeback_payment :
      ℕ → ℕ → Option (ℕ × Recharge) → Action (World P) (Unit {0})
  handle_chargeback_payment payment_id order_id recharge = transaction (do
    update_payment P payment_id (as_rejected out.now)
    update_order P order_id (with_order_status refounded)
    on_option (pure tt) (λ (e : ℕ × Recharge). reject_recharge order_id) recharge
    revert_coupon_usage P out.calendar order_id)

  -- Only the time stamp of an approved payment.
  unfoldable pub handle_disputed_payment : ℕ → Action (World P) (Unit {0})
  handle_disputed_payment payment_id = transaction (λ w.
      on_option (ok tt, w)
        (λ (p : Payment). elim p.status [
          | payment_approved ↦
              update_payment P payment_id (λ q. record q { status_updated_at = some out.now }) w
          | _ ↦ (ok tt, w)
        ])
        (P.find_unique w.payments payment_id))
