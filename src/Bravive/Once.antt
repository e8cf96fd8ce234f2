-- ===== src/Bravive/Once.antt =====
-- A webhook that is delivered again: `handleWebhook` skips a payment that has the status already.
use recharge_plataform_api.Prelude.{
  ℕ, ◌≡◌, refl, inl, inr, true, false, some, [], ◌==◌, head?, Bool-cases, Option-cases,
}
use recharge_plataform_api.Prelude.Text.{Text}
use recharge_plataform_api.Prisma.{Prisma}
use recharge_plataform_api.Schema.{
  Payment, PaymentStatus, payment_pending, payment_approved, payment_rejected,
}
use recharge_plataform_api.Database.{World, ok}
use recharge_plataform_api.Database.Laws.{head-find_many}
use recharge_plataform_api.Bravive.Status.{
  WebhookStatus, approved, rejected, canceled, chargeback, refunded, in_dispute, unhandled,
  to_upper, webhook_status, map_webhook_status_to_payment_status, same_status,
}
use recharge_plataform_api.Bravive.Handlers.{Outside}
use recharge_plataform_api.Bravive.Webhook.{
  WebhookDto, Included, is_bravive_payment, find_included, process_status, handle_webhook,
}
use recharge_plataform_api.Bigo.Service.{is_blank, or_text}
use recharge_plataform_api.Bravive.Included.{
  IsIncluded, find_included-IsIncluded, head-find_many_update,
}
use recharge_plataform_api.Bravive.Payments.{writes_payment, status_written, dispatch_payments}

same_status_self : (s : PaymentStatus) → same_status s s ≡ true
same_status_self payment_pending = refl
same_status_self payment_approved = refl
same_status_self payment_rejected = refl

module _ (P : Prisma) where
  -- A webhook for a payment that has the status it brings does nothing.
  handled :
      (out : Outside) (dto : WebhookDto) (payment_id : ℕ) (p : Payment) (t : PaymentStatus)
      (w : World P)
      → head? (P.find_many w.payments (is_bravive_payment P (or_text dto.id [])))
        ≡ some (payment_id, p)
      → p.status ≡ t
      → map_webhook_status_to_payment_status (webhook_status (to_upper (or_text dto.status [])))
        ≡ some t
      → handle_webhook P out dto w ≡ (ok tt, w)
  unfolding handle_webhook find_included
  handled out dto payment_id p t w found status target = elim (Bool-cases (is_blank dto.id)) [
    | inl blank ↦ rw blank
    | inr given ↦ elim (Bool-cases (is_blank dto.status)) [
      | inl no_status ↦
          elim (Option-cases (head? (P.find_many w.orders (λ o. o.payment_id == payment_id)))) [
            | inl no_order ↦ rw (given, found, no_order)
            | inr (o, ordered) ↦ rw (given, found, ordered, no_status)
          ]
      | inr with_status ↦
          elim (Option-cases (head? (P.find_many w.orders (λ o. o.payment_id == payment_id)))) [
            | inl no_order ↦ rw (given, found, no_order)
            | inr (o, ordered) ↦
                rw (given, found, ordered, with_status, target, status, same_status_self)
          ]
    ]
  ]

  target_written :
      (out : Outside) (s : WebhookStatus) (p : Payment)
      → writes_payment s ≡ true
      → map_webhook_status_to_payment_status s ≡ some (status_written P out s p).status
  unfolding map_webhook_status_to_payment_status
  target_written out approved p h = refl
  target_written out rejected p h = refl
  target_written out canceled p h = refl
  target_written out chargeback p h = refl
  target_written out refunded p h = cc h
  target_written out in_dispute p h = cc h
  target_written out unhandled p h = cc h

  status_written-passes :
      (out : Outside) (bravive_id : Text) (s : WebhookStatus) (p : Payment)
      → writes_payment s ≡ true
      → is_bravive_payment P bravive_id p ≡ true
      → is_bravive_payment P bravive_id (status_written P out s p) ≡ true
  status_written-passes out bravive_id approved p h passed = passed
  status_written-passes out bravive_id rejected p h passed = passed
  status_written-passes out bravive_id canceled p h passed = passed
  status_written-passes out bravive_id chargeback p h passed = passed
  status_written-passes out bravive_id refunded p h passed = cc h
  status_written-passes out bravive_id in_dispute p h passed = cc h
  status_written-passes out bravive_id unhandled p h passed = cc h

  same_status-eq : (a b : PaymentStatus) → same_status a b ≡ true → a ≡ b
  same_status-eq payment_pending payment_pending h = refl
  same_status-eq payment_approved payment_approved h = refl
  same_status-eq payment_rejected payment_rejected h = refl
  same_status-eq payment_pending payment_approved h = cc h
  same_status-eq payment_pending payment_rejected h = cc h
  same_status-eq payment_approved payment_pending h = cc h
  same_status-eq payment_approved payment_rejected h = cc h
  same_status-eq payment_rejected payment_pending h = cc h
  same_status-eq payment_rejected payment_approved h = cc h

  -- Once the status is processed, the search finds the payment with the status that was asked for.
  after_process :
      (out : Outside) (bravive_id : Text) (s : WebhookStatus) (t : PaymentStatus) (i : Included)
      (w : World P)
      → writes_payment s ≡ true
      → map_webhook_status_to_payment_status s ≡ some t
      → IsIncluded P bravive_id i w
      → ((j : ℕ) (q : Payment)
          → P.find_unique w.payments j ≡ some q
          → is_bravive_payment P bravive_id q ≡ true
          → j ≡ i.payment_id)
      → (p : Payment) × (head?
            (P.find_many (process_status P out s i w).1.payments (is_bravive_payment P bravive_id))
          ≡ some (i.payment_id, p))
        × (p.status ≡ t)
  unfolding process_status
  after_process out bravive_id s t i w h target found unique =
      elim (Bool-cases (same_status i.payment.status t)) [
        | inl done ↦
            rw (target, done)
              (
                i.payment,
                head-find_many P w.payments (is_bravive_payment P bravive_id) i.payment_id i.payment
                    found.0 found.1 unique,
                same_status-eq i.payment.status t done,
              )
        | inr open_status ↦
            let p : Payment = status_written P out s i.payment in
            let written = dispatch_payments P out s bravive_id i w h found in
            rw (target, open_status)
              (
                p,
                rw written (
                    head-find_many_update P w.payments (is_bravive_payment P bravive_id)
                      i.payment_id i.payment (status_written P out s) found.0
                      (status_written-passes out bravive_id s i.payment h found.1) unique),
                cc (target_written out s i.payment h),
              )
      ]

  handle_webhook_found :
      (out : Outside) (dto : WebhookDto) (i : Included) (w : World P)
      → is_blank dto.id ≡ false
      → is_blank dto.status ≡ false
      → find_included P (or_text dto.id []) w ≡ some i
      → handle_webhook P out dto w
        ≡ process_status P out (webhook_status (to_upper (or_text dto.status []))) i w
  unfolding handle_webhook
  handle_webhook_found out dto i w given with_status found = rw (given, found, with_status)

  -- For a webhook whose status is APPROVED, REJECTED, CANCELED or CHARGEBACK and whose id belongs to one
  -- payment only, which is found with its order: when it is delivered a second time, at whatever
  -- instant and whatever the outside would answer then, it returns and changes nothing.
  pub handle_webhook_twice :
      (out out' : Outside) (dto : WebhookDto) (i : Included) (w : World P)
      → is_blank dto.id ≡ false
      → is_blank dto.status ≡ false
      → writes_payment (webhook_status (to_upper (or_text dto.status []))) ≡ true
      → find_included P (or_text dto.id []) w ≡ some i
      → ((j : ℕ) (q : Payment)
          → P.find_unique w.payments j ≡ some q
          → is_bravive_payment P (or_text dto.id []) q ≡ true
          → j ≡ i.payment_id)
      → let w' = (handle_webhook P out dto w).1 in handle_webhook P out' dto w' ≡ (ok tt, w')
  handle_webhook_twice out out' dto i w given with_status writes found unique =
      let s : WebhookStatus = webhook_status (to_upper (or_text dto.status [])) in
      let target = target_written out s i.payment writes in
      let (p, there, status) =
        after_process out (or_text dto.id []) s (status_written P out s i.payment).status i w writes
          target (find_included-IsIncluded P (or_text dto.id []) i w found) unique in
      rw (handle_webhook_found out dto i w given with_status found) (
        handled out' dto i.payment_id p (status_written P out s i.payment).status
          (process_status P out s i w).1 there status target)
