-- ===== src/Bravive/Status.antt =====
-- The statuses of Bravive (`WebhookStatus` of webhook-payment.dto.ts) and what they mean for a payment.
use recharge_plataform_api.Prelude.{
  ◌-◌, Bool, true, false, ◌&&◌, Option, none, some, leb, if◌then◌else◌, map,
}
use recharge_plataform_api.Prelude.Text.{Text, codes, text_eq}
use recharge_plataform_api.Schema.{
  PaymentStatus, payment_pending, payment_approved, payment_rejected,
}

-- A string in upper case; `unhandled` is one that is no member of the enum.
pub data WebhookStatus : Type 0 where
  approved rejected canceled chargeback refunded in_dispute unhandled : WebhookStatus

-- `toUpperCase()` of a string of ASCII characters
abbrev pub to_upper : Text → Text
to_upper = map (λ c. if leb 97 c && leb c 122 then c - 32 else c)

-- The case of the `switch` that a string in upper case selects.
unfoldable pub webhook_status : Text → WebhookStatus
webhook_status t =
    if text_eq t (codes "APPROVED")
    then approved
    else if text_eq t (codes "REJECTED")
    then rejected
    else if text_eq t (codes "CANCELED")
    then canceled
    else if text_eq t (codes "CHARGEBACK")
    then chargeback
    else if text_eq t (codes "REFUNDED")
    then refunded
    else if text_eq t (codes "IN_DISPUTE")
    then in_dispute
    else unhandled

-- `mapWebhookStatusToPaymentStatus`
unfoldable pub map_webhook_status_to_payment_status : WebhookStatus → Option PaymentStatus
map_webhook_status_to_payment_status approved = some payment_approved
map_webhook_status_to_payment_status rejected = some payment_rejected
map_webhook_status_to_payment_status canceled = some payment_rejected
map_webhook_status_to_payment_status refunded = some payment_rejected
map_webhook_status_to_payment_status chargeback = some payment_rejected
map_webhook_status_to_payment_status in_dispute = none
map_webhook_status_to_payment_status unhandled = none

-- The mapping of `checkAndUpdatePaymentStatus`, from a status in upper case.
unfoldable pub internal_status : Text → Option PaymentStatus
internal_status t =
    if text_eq t (codes "APPROVED")
    then some payment_approved
    else if text_eq t (codes "REJECTED")
    then some payment_rejected
    else if text_eq t (codes "CANCELED")
    then some payment_rejected
    else if text_eq t (codes "PENDING")
    then some payment_pending
    else none

-- `a === b` on payment statuses
abbrev pub same_status : PaymentStatus → PaymentStatus → Bool
same_status payment_pending payment_pending = true
same_status payment_approved payment_approved = true
same_status payment_rejected payment_rejected = true
same_status a b = false
