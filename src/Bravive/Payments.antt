-- ===== src/Bravive/Payments.antt =====
-- What the handlers of the webhooks do to the table of payments.
use recharge_plataform_api.Prelude.{
  ℕ, ◌≡◌, refl, ◌∙◌, inl, inr, Bool, true, false, Option, none, some, map_option, Option-cases,
}
use recharge_plataform_api.Prelude.Text.{Text}
use recharge_plataform_api.Prisma.{Prisma}
use recharge_plataform_api.Schema.{Order, Payment, Recharge, processing, expired, refounded}
use recharge_plataform_api.Database.{
  World, Action, Result, ok, err, continue, settle, on_option, pure, transaction, try_catch,
  update_payment, update_order, update_recharge, ◌>>◌,
}
use recharge_plataform_api.Database.Frame.{
  Keeps, keeps_update_row, Keeps-then, Keeps-try, Keeps-result, frame_rules,
}
use recharge_plataform_api.Bravive.Status.{
  WebhookStatus, approved, rejected, canceled, chargeback, refunded, in_dispute, unhandled,
}
use recharge_plataform_api.Bravive.Handlers.{
  Outside, with_order_status, recharge_as_pending, bigo_recharge_dto, as_approved, as_rejected,
  approve_rows, complete_rows, send_recharge, sendable, reject_recharge, handle_approved_payment,
  handle_rejected_or_canceled_payment, handle_chargeback_payment,
}
use recharge_plataform_api.Bravive.Webhook.{Included, dispatch}
use recharge_plataform_api.Bravive.Frame.{
  sale_rows, send-Keeps_rows, confirm-Keeps_rows, revert-Keeps_rows, metrics_keep_rows, revert-ok,
}
use recharge_plataform_api.Bigo.Service.{diamond_recharge}
use recharge_plataform_api.Order.Usage.{confirm_coupon_usage, revert_coupon_usage}
use recharge_plataform_api.Metrics.{update_metrics_for_order}
use recharge_plataform_api.Bravive.Included.{IsIncluded}

-- The statuses whose handler writes the status of the payment.
abbrev pub writes_payment : WebhookStatus → Bool
writes_payment approved = true
writes_payment rejected = true
writes_payment canceled = true
writes_payment chargeback = true
writes_payment s = false

settled : {S A : Type 0} (s : S) (c : Result A × S) (a : A) → c.0 ≡ ok a → settle s c ≡ c
settled s (ok b, s') a h = refl
settled s (err e, s') a h = cc h

module _ (P : Prisma) where
  module _ (out : Outside) where
    payments_of : World P → P.Table Payment
    payments_of w = w.payments

    -- The two calls that stand first in a transaction whose rest returns.
    first_calls :
        (f : Payment → Payment) (g : Order → Order) (payment_id order_id : ℕ) (p : Payment)
        (o : Order) (rest : Action (World P) (Unit {0})) (w : World P)
        → P.find_unique w.payments payment_id ≡ some p
        → P.find_unique w.orders order_id ≡ some o
        → ((s : World P) → s.recharges ≡ w.recharges → (rest s).0 ≡ ok tt)
        → Keeps payments_of rest
        → let (res, w') =
            transaction (update_payment P payment_id f >> (update_order P order_id g >> rest)) w in
          (res ≡ ok tt) × (w'.payments ≡ P.update w.payments payment_id f)
    unfolding payments_of
    first_calls f g payment_id order_id p o rest w paid ordered returns keeps =
        let w1 : World P = record w {
          payments = P.update w.payments payment_id f;
          orders = P.update w.orders order_id g;
        } in
        rw (paid, ordered, settled w (rest w1) tt (returns w1 refl))
          (returns w1 refl, keeps.kept w1)

    reject-ok : (order_id : ℕ) (s : World P) → (reject_recharge P out order_id s).0 ≡ ok tt
    reject-ok order_id s = elim (Option-cases (P.find_unique s.orders order_id)) [
      | inl gone ↦ rw gone
      | inr (o, ordered) ↦ elim (Option-cases (P.find_unique s.recharges o.recharge_id)) [
        | inl no_recharge ↦ rw (ordered, no_recharge)
        | inr (r, there) ↦ rw (ordered, there)
      ]
    ]

    reject-Keeps : (order_id : ℕ) → Keeps payments_of (reject_recharge P out order_id)
    unfolding payments_of
    reject-Keeps order_id = record {
      kept = λ s. elim (Option-cases (P.find_unique s.orders order_id)) [
        | inl gone ↦ rw gone
        | inr (o, ordered) ↦ elim (Option-cases (P.find_unique s.recharges o.recharge_id)) [
          | inl no_recharge ↦ rw (ordered, no_recharge)
          | inr (r, there) ↦ rw (ordered, there)
        ]
      ];
    }

    payments_only :
        {A : Type 0} (m : Action (World P) A) → Keeps (sale_rows P) m → Keeps payments_of m
    unfolding payments_of
    payments_only m h = record { kept = λ s i. (h.kept s i).0 }

    order-Keeps : (id : ℕ) (f : Order → Order) → Keeps payments_of (update_order P id f)
    unfolding payments_of
    order-Keeps id f = record {
      kept = λ s.
          keeps_update_row P payments_of s.orders (λ t. record s { orders = t }) id f s (λ t. refl);
    }

    recharge-Keeps : (id : ℕ) (f : Recharge → Recharge) → Keeps payments_of (update_recharge P id f)
    unfolding payments_of
    recharge-Keeps id f = record {
      kept = λ s.
          keeps_update_row P payments_of s.recharges (λ t. record s { recharges = t }) id f s
            (λ t. refl);
    }

    complete-Keeps :
        (order_id recharge_id : ℕ) → Keeps payments_of (complete_rows P out order_id recharge_id)
    unfolding complete_rows
    complete-Keeps order_id recharge_id = search (frame_rules, order-Keeps, recharge-Keeps)

    metrics-Keeps :
        (order_id : ℕ)
        → Keeps payments_of (λ s. (ok tt, update_metrics_for_order P out.calendar order_id s))
    unfolding payments_of
    metrics-Keeps order_id = record {
      kept = λ s i. (metrics_keep_rows P out.calendar order_id s i).0;
    }

    send-Keeps :
        (order_id : ℕ) (order_number : Text) (e : ℕ × Recharge)
        → Keeps payments_of (send_recharge P out order_id order_number e)
    unfolding send_recharge
    send-Keeps order_id order_number e =
        Keeps-then
          (payments_only
            (diamond_recharge P (bigo_recharge_dto P out order_number e.1) none out.seqid out.bigo
              out.now)
            (send-Keeps_rows P (bigo_recharge_dto P out order_number e.1) out.seqid out.bigo
              out.now))
          (Keeps-then (complete-Keeps order_id e.0) (
            Keeps-then
              (payments_only (confirm_coupon_usage P out.calendar order_id out.now)
                (confirm-Keeps_rows P out.calendar order_id out.now))
              (metrics-Keeps order_id)))

    try_send-Keeps :
        (order_id : ℕ) (order_number : Text) (recharge : Option (ℕ × Recharge))
        → Keeps payments_of (
            on_option
              (pure tt)
              (λ e. try_catch (send_recharge P out order_id order_number e) (λ error. pure tt))
              recharge)
    try_send-Keeps order_id order_number none = Keeps-result (ok tt)
    try_send-Keeps order_id order_number (some e) =
        Keeps-try (send-Keeps order_id order_number e) (λ error. Keeps-result (ok tt))

    then_kept :
        (c : Result (Unit {0}) × World P) (n : Action (World P) (Unit {0}))
        → c.0 ≡ ok tt
        → Keeps payments_of n
        → (continue (λ _. n) c).1.payments ≡ c.1.payments
    unfolding payments_of
    then_kept (ok u, s) n h keeps = keeps.kept s
    then_kept (err e, s) n h keeps = cc h

    set_pending :
        (i : Included) (w s : World P)
        → i.recharge
          ≡ map_option
              (λ r. (i.order.recharge_id, r))
              (P.find_unique w.recharges i.order.recharge_id)
        → s.recharges ≡ w.recharges
        → (on_option
            (pure tt)
            (λ (e : ℕ × Recharge). update_recharge P e.0 (recharge_as_pending out.now))
            i.recharge
            s).0
          ≡ ok tt
    set_pending i w s from same =
        elim (Option-cases (P.find_unique w.recharges i.order.recharge_id)) [
          | inl none_there ↦ rw (from, none_there)
          | inr (r, there) ↦ rw (from, there, same, there)
        ]

    pending-Keeps :
        (recharge : Option (ℕ × Recharge))
        → Keeps payments_of (
            on_option
              (pure tt)
              (λ (e : ℕ × Recharge). update_recharge P e.0 (recharge_as_pending out.now))
              recharge)
    pending-Keeps none = Keeps-result (ok tt)
    pending-Keeps (some e) = recharge-Keeps e.0 (recharge_as_pending out.now)

    -- What a handler that writes the status of the payment makes of it.
    abbrev pub status_written : WebhookStatus → Payment → Payment
    status_written approved p = as_approved out.now p
    status_written s p = as_rejected out.now p

    reject_payments :
        (bravive_id : Text) (i : Included) (w : World P)
        → IsIncluded P bravive_id i w
        → (handle_rejected_or_canceled_payment P out i.payment_id i.order_id w).1.payments
          ≡ P.update w.payments i.payment_id (as_rejected out.now)
    unfolding handle_rejected_or_canceled_payment
    reject_payments bravive_id i w (paid, passed, ordered, from) =
        (first_calls (as_rejected out.now) (with_order_status expired) i.payment_id i.order_id
          i.payment i.order (reject_recharge P out i.order_id) w paid ordered
          (λ s same. reject-ok i.order_id s) (reject-Keeps i.order_id)).1

    chargeback_rest : ℕ → Option (ℕ × Recharge) → Action (World P) (Unit {0})
    chargeback_rest order_id recharge =
        on_option (pure tt) (λ (e : ℕ × Recharge). reject_recharge P out order_id) recharge
        >> revert_coupon_usage P out.calendar order_id

    chargeback-ok :
        (order_id : ℕ) (recharge : Option (ℕ × Recharge)) (s : World P)
        → (chargeback_rest order_id recharge s).0 ≡ ok tt
    unfolding chargeback_rest
    chargeback-ok order_id none s = revert-ok P out.calendar order_id s
    chargeback-ok order_id (some e) s =
        after_reject (reject_recharge P out order_id s) (reject-ok order_id s)
      where
        after_reject :
            (c : Result (Unit {0}) × World P)
            → c.0 ≡ ok tt
            → (continue (λ _. revert_coupon_usage P out.calendar order_id) c).0 ≡ ok tt
        after_reject (ok u, s') h = revert-ok P out.calendar order_id s'
        after_reject (err e', s') h = cc h

    chargeback-Keeps :
        (order_id : ℕ) (recharge : Option (ℕ × Recharge))
        → Keeps payments_of (chargeback_rest order_id recharge)
    unfolding chargeback_rest
    chargeback-Keeps order_id none = Keeps-then (Keeps-result (ok tt)) (
        payments_only (revert_coupon_usage P out.calendar order_id)
          (revert-Keeps_rows P out.calendar order_id))
    chargeback-Keeps order_id (some e) = Keeps-then (reject-Keeps order_id) (
        payments_only (revert_coupon_usage P out.calendar order_id)
          (revert-Keeps_rows P out.calendar order_id))

    -- The payments after the handler of one of these statuses.
    pub dispatch_payments :
        (s : WebhookStatus) (bravive_id : Text) (i : Included) (w : World P)
        → writes_payment s ≡ true
        → IsIncluded P bravive_id i w
        → (dispatch P out s i w).1.payments ≡ P.update w.payments i.payment_id (status_written s)
    unfolding dispatch handle_approved_payment approve_rows handle_chargeback_payment
        chargeback_rest
    dispatch_payments approved bravive_id i w h (paid, passed, ordered, from) =
        let (done, written) =
          first_calls (as_approved out.now) (with_order_status processing) i.payment_id i.order_id
            i.payment i.order
            (on_option (pure tt)
              (λ (e : ℕ × Recharge). update_recharge P e.0 (recharge_as_pending out.now))
              i.recharge)
            w paid ordered (λ s same. set_pending i w s from same) (pending-Keeps i.recharge) in
        then_kept (approve_rows P out i.payment_id i.order_id i.recharge w) _ done
          (try_send-Keeps i.order_id i.order.order_number (sendable i.recharge))
        ∙ written
    dispatch_payments rejected bravive_id i w h found = reject_payments bravive_id i w found
    dispatch_payments canceled bravive_id i w h found = reject_payments bravive_id i w found
    dispatch_payments chargeback bravive_id i w h (paid, passed, ordered, from) =
        (first_calls (as_rejected out.now) (with_order_status refounded) i.payment_id i.order_id
          i.payment i.order (chargeback_rest i.order_id i.recharge) w paid ordered
          (λ s same. chargeback-ok i.order_id i.recharge s)
          (chargeback-Keeps i.order_id i.recharge)).1
    dispatch_payments refunded bravive_id i w h found = cc h
    dispatch_payments in_dispute bravive_id i w h found = cc h
    dispatch_payments unhandled bravive_id i w h found = cc h
