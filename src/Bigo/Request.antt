-- ===== src/Bigo/Request.antt =====
-- `makeSignedRequest` of `bigo.service.ts`: the primary domain first, then the backup domain.
use recharge_plataform_api.Prelude.{Option, none, some, ◌++◌, ◌==◌, if◌then◌else◌}
use recharge_plataform_api.Prelude.Text.{Text, codes}
use recharge_plataform_api.Schema.{BigoResponse}
use recharge_plataform_api.Database.{
  Result, ok, err, Error, http_exception, js_error, message_of, bad_request,
}
use recharge_plataform_api.Bigo.Message.{get_bigo_error_message}

-- What one POST of the HTTP client yields: a body, or an error with its message.
pub data HttpAnswer : Type 0 where
  answered : BigoResponse → HttpAnswer
  http_failure : Text → HttpAnswer

-- What the outside does during one signed request: the error that the signature service throws, if
-- any; the answer of the primary domain; and that of the backup domain, if one is configured.
pub record Exchange : Type 0 where
  pub signature_error : Option Text
  pub primary : HttpAnswer
  pub backup : Option HttpAnswer

-- The body of one `try`: a result code other than 0 is thrown as its message.
abbrev pub validated : HttpAnswer → Result BigoResponse
validated (http_failure m) = err (js_error m)
validated (answered r) =
    if r.rescode == 0
    then ok r
    else err (http_exception bad_request (get_bigo_error_message r.rescode r.message))

abbrev pub network_error : Text → Error
network_error m = http_exception bad_request (codes "Network error: " ++ m)

abbrev try_backup : Text → Option HttpAnswer → Result BigoResponse
try_backup m none = err (network_error m)
try_backup m (some answer) = elim (validated answer) [
  | ok r ↦ ok r
  | err e ↦ err (network_error (message_of e))
]

unfoldable pub make_signed_request : Exchange → Result BigoResponse
make_signed_request x = elim x.signature_error [
  | some m ↦ err (js_error m)
  | none ↦ elim (validated x.primary) [ ok r ↦ ok r | err e ↦ try_backup (message_of e) x.backup ]
]
