-- ===== src/Bravive/Manual.antt =====
-- The manual check of a payment against the webhook that reports the same status.
use recharge_plataform_api.Prelude.{
  ◌≡◌, refl, ◌∙◌, inl, inr, Bool, true, false, some, [], ◌∷◌, ◌++◌, Bool-cases, Option-cases,
  if◌then◌else◌,
}
use recharge_plataform_api.Prelude.Text.{Text, codes, text_eq}
use recharge_plataform_api.Prisma.{Prisma}
use recharge_plataform_api.Schema.{PaymentStatus, payment_approved, payment_rejected}
use recharge_plataform_api.Database.{
  World, Result, ok, err, Error, http_exception, bad_request, message_of, continue, handle_error,
  pure,
}
use recharge_plataform_api.Bigo.Service.{is_blank}
use recharge_plataform_api.Bravive.Status.{
  WebhookStatus, approved, rejected, canceled, chargeback, refunded, in_dispute, unhandled,
  to_upper, webhook_status, internal_status, map_webhook_status_to_payment_status, same_status,
}
use recharge_plataform_api.Bravive.Handlers.{Outside}
use recharge_plataform_api.Bravive.Webhook.{
  Included, find_included, dispatch, process_status, handle_webhook, apply_internal,
  check_and_update_payment_status,
}

-- The statuses that the manual check knows, PENDING aside.
abbrev pub is_checked : WebhookStatus → Bool
is_checked approved = true
is_checked rejected = true
is_checked canceled = true
is_checked s = false

handle-state :
    {S A : Type 0} (f : Error → Error) (c : Result A × S)
    → (handle_error (λ e s. (err (f e), s)) c).1 ≡ c.1
handle-state f (ok a, s) = refl
handle-state f (err e, s) = refl

then-state : {S A B : Type 0} (b : B) (c : Result A × S) → (continue (λ _. pure b) c).1 ≡ c.1
then-state b (ok a, s) = refl
then-state b (err e, s) = refl

unchecked :
    (a b c : Bool)
    → is_checked
        (if a then chargeback else if b then refunded else if c then in_dispute else unhandled)
      ≡ true
    → ⊥
unchecked true b c h = cc h
unchecked false true c h = cc h
unchecked false false true h = cc h
unchecked false false false h = cc h

module _ (P : Prisma) (out : Outside) where
  readings :
      (u : Text)
      → is_checked (webhook_status u) ≡ true
      → (t : PaymentStatus) × (internal_status u ≡ some t)
        × (map_webhook_status_to_payment_status (webhook_status u) ≡ some t)
        × ((i : Included) → apply_internal P out t i ≡ dispatch P out (webhook_status u) i)
  unfolding internal_status webhook_status map_webhook_status_to_payment_status dispatch
  readings u h = elim (Bool-cases (text_eq u (codes "APPROVED"))) [
    | inl a ↦ rw a (payment_approved, refl, refl, λ i. refl)
    | inr na ↦ elim (Bool-cases (text_eq u (codes "REJECTED"))) [
      | inl r ↦ rw (na, r) (payment_rejected, refl, refl, λ i. refl)
      | inr nr ↦ elim (Bool-cases (text_eq u (codes "CANCELED"))) [
        | inl c ↦ rw (na, nr, c) (payment_rejected, refl, refl, λ i. refl)
        | inr nc ↦ absurd (
            unchecked (text_eq u (codes "CHARGEBACK")) (text_eq u (codes "REFUNDED"))
              (text_eq u (codes "IN_DISPUTE")) (rw (na, nr, nc) at h))
      ]
    ]
  ]

  -- For a status that reads APPROVED, REJECTED or CANCELED in upper case: the manual check of a payment
  -- that Bravive reports with it leaves the same state as the webhook that brings it.
  pub check-handle_webhook :
      (bravive_id status : Text) (w : World P)
      → is_blank (some bravive_id) ≡ false
      → is_blank (some status) ≡ false
      → is_checked (webhook_status (to_upper status)) ≡ true
      → (check_and_update_payment_status P out bravive_id (ok (some status)) w).1
        ≡ (handle_webhook P out (record { id = some bravive_id; status = some status }) w).1
  unfolding check_and_update_payment_status handle_webhook process_status
  check-handle_webhook [] status w given with_status checked = cc given
  check-handle_webhook (b ∷ bs) [] w given with_status checked = cc with_status
  check-handle_webhook (b ∷ bs) (c ∷ cs) w given with_status checked =
      let (t, internal, target, same) = readings (to_upper (c ∷ cs)) checked in
      elim (Option-cases (find_included P (b ∷ bs) w)) [
        | inl none_there ↦ rw none_there
        | inr (i, found) ↦ elim (Bool-cases (same_status i.payment.status t)) [
          | inl done ↦ rw (found, internal, target, done)
          | inr open_status ↦
              let d = dispatch P out (webhook_status (to_upper (c ∷ cs))) i w in
              rw (found, internal, target, open_status, same i)
                (handle-state
                    (λ e.
                      http_exception bad_request
                        (codes "Failed to check payment status: " ++ message_of e))
                    (continue (λ _. pure (c ∷ cs, true)) d)
                  ∙ then-state (c ∷ cs, true) d)
        ]
      ]
