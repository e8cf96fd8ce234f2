-- ===== src/Bigo/Service.antt =====
-- `BigoService`: precheck, diamond recharge and disabling, each with its log row. The answers of the
-- API come as an `Exchange`, and the generated sequence id as an argument.
use recharge_plataform_api.Prelude.{
  ℕ, Bool, true, false, Option, none, some, [], ◌∷◌, ◌++◌, if◌then◌else◌, head?,
}
use recharge_plataform_api.Prelude.Text.{Text, codes}
use recharge_plataform_api.Prisma.{Prisma}
use recharge_plataform_api.Schema.{
  BigoRecharge, BigoResponse, RequestBody, Endpoint, recharge_pre_check, rs_recharge, disable,
  requested, success, is_same_text,
}
use recharge_plataform_api.Database.{
  World, Action, Result, err, Error, http_exception, bad_request, is_bad_request, message_of, pure,
  throw, try_catch, on_option, when, ◌>>=◌, ◌>>◌, update_bigo_recharge, create_bigo_recharge,
}
use recharge_plataform_api.Bigo.Message.{extract_rescode_from_error}
use recharge_plataform_api.Bigo.Queue.{add_to_retry_queue}
use recharge_plataform_api.Bigo.Request.{Exchange, make_signed_request}

-- `!seqid`: undefined or empty
abbrev pub is_blank : Option Text → Bool
is_blank none = true
is_blank (some []) = true
is_blank (some (c ∷ cs)) = false

-- `seqid || generated`
abbrev pub or_text : Option Text → Text → Text
or_text none d = d
or_text (some []) d = d
or_text (some (c ∷ cs)) d = c ∷ cs

-- `where: { buOrderId }`: an undefined filter matches every row.
abbrev has_bu_order_id : Option Text → BigoRecharge → Bool
has_bu_order_id none r = true
has_bu_order_id (some t) r = is_same_text (some t) r.bu_order_id

-- `response` of a request that did or did not throw
abbrev pub lift : {A S : Type 0} → Result A → Action S A
lift r s = (r, s)

-- The log row that a call creates.
abbrev pub log_entry : Text → Option Text → Endpoint → RequestBody → BigoRecharge
log_entry seqid bu_order_id endpoint body = record {
  seqid = seqid;
  bu_order_id = bu_order_id;
  endpoint = endpoint;
  status = requested;
  rescode = none;
  message = none;
  request_body = body;
  response_body = none;
  attempts = 0;
  next_retry = none;
}

-- `data: { status: 'SUCCESS', rescode, message, responseBody }`
abbrev with_success : BigoResponse → BigoRecharge → BigoRecharge
with_success response r = record r {
  status = success;
  rescode = some response.rescode;
  message = response.message;
  response_body = some response;
}

-- `if (error instanceof BadRequestException) throw error; throw new BadRequestException(text)`
abbrev rethrow : {A S : Type 0} → Text → Error → Action S A
rethrow text e = throw (if is_bad_request e then e else http_exception bad_request text)

module _ (P : Prisma) where
  unfoldable pub recharge_precheck :
      RequestBody → Option Text → Text → Exchange → Action (World P) BigoResponse
  recharge_precheck dto seqid generated x =
      let final_seqid : Text = or_text seqid generated in
      let body : RequestBody = record dto { seqid = some final_seqid } in
      try_catch
        (do
          response ← lift (make_signed_request x)
          when (is_blank seqid) (
              create_bigo_recharge P
                (with_success response (log_entry final_seqid none recharge_pre_check body))
              >> pure tt)
          pure response)
        (rethrow (codes "Failed to validate bigoId"))

  -- `retryService.addToRetryQueue(logEntry.id, rescode, error.message)`
  abbrev queue_failure : ℕ → Error → ℕ → Action (World P) (Unit {0})
  queue_failure id e now =
      add_to_retry_queue P id (extract_rescode_from_error (message_of e)) (message_of e) none now

  -- A first call is logged before the request; a retry, which has a `seqid`, is not.
  unfoldable pub log_recharge : RequestBody → Text → Action (World P) ℕ
  log_recharge body final_seqid w =
      on_option (create_bigo_recharge P (log_entry final_seqid body.bu_orderid rs_recharge body) w)
        (λ _. (
          err (
              http_exception bad_request (
                codes "bu_orderid '"
                ++ (or_text body.bu_orderid (codes "undefined")
                    ++ codes "' has already been used"))),
          w,
        ))
        (head? (P.find_many w.bigo_recharges (has_bu_order_id body.bu_orderid)))

  unfoldable pub diamond_recharge_logged :
      RequestBody → Text → Exchange → ℕ → Action (World P) BigoResponse
  unfolding log_recharge
  diamond_recharge_logged body final_seqid x now = do
    id ← log_recharge body final_seqid
    try_catch
        (do
          response ← lift (make_signed_request x)
          update_bigo_recharge P id (with_success response)
          pure response)
        (λ e. queue_failure id e now >> rethrow (codes "Failed to recharge diamonds") e)

  unfoldable pub diamond_recharge :
      RequestBody → Option Text → Text → Exchange → ℕ → Action (World P) BigoResponse
  unfolding diamond_recharge_logged
  diamond_recharge dto seqid generated x now =
      let final_seqid : Text = or_text seqid generated in
      let body : RequestBody = record dto { seqid = some final_seqid } in
      if is_blank seqid
      then diamond_recharge_logged body final_seqid x now
      else try_catch (lift (make_signed_request x)) (rethrow (codes "Failed to recharge diamonds"))

  -- `dto.seqid` is the caller's; the row is always created.
  unfoldable pub disable_recharge : RequestBody → Exchange → ℕ → Action (World P) BigoResponse
  disable_recharge dto x now = do
    id ← create_bigo_recharge P (log_entry (or_text dto.seqid []) none disable dto)
    try_catch
        (do
          response ← lift (make_signed_request x)
          update_bigo_recharge P id (with_success response)
          pure response)
        (λ e.
          queue_failure id e now >> rethrow (codes "Disable recharge failed: " ++ message_of e) e)
