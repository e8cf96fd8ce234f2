-- ===== src/Email.antt =====
-- `sendEmail` of src/email/email.service.ts. The provider is Resend, whose call gives back its answer, an
-- error of the provider included; `sendEmail` hands that on without reading it.
use recharge_plataform_api.Prelude.{ℕ, ◌∷◌, ◌++◌, ◌==◌, if◌then◌else◌}
use recharge_plataform_api.Prelude.Text.{Text, codes}
use recharge_plataform_api.Prisma.{Prisma}
use recharge_plataform_api.Schema.{Mail}
use recharge_plataform_api.Database.{World, Action, ok, err, js_error}

abbrev pub SendError : Type 0
SendError = ℕ × Text

-- What becomes of a call of the provider: it took the mail, it answered with an error, which is returned,
-- or the call threw an error with a `statusCode` and a message.
pub data SendOutcome : Type 0 where
  mail_sent : SendOutcome
  mail_refused : SendError → SendOutcome
  mail_thrown : SendError → SendOutcome

abbrev send_error_message : SendError → Text
send_error_message (status, message) =
    if status == 401
    then codes "Authentication failed - check your API key"
    else if status == 403
    then codes "Authorization failed - check your sender permissions"
    else if status == 400
    then codes "Bad request: " ++ message
    else if status == 429
    then codes "Rate limit exceeded - try again later"
    else codes "Failed to send email: " ++ message

module _ (P : Prisma) where
  abbrev pub send_email : SendOutcome → Mail → Action (World P) (Unit {0})
  send_email mail_sent mail w = (ok tt, record w { outbox = mail ∷ w.outbox })
  send_email (mail_refused e) mail w = (ok tt, w)
  send_email (mail_thrown e) mail w = (err (js_error (send_error_message e)), w)
