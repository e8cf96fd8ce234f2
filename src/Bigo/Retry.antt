-- ===== src/Bigo/Retry.antt =====
-- `processSpecificRetry` of `bigo-retry.service.ts`: the callback of a retry timer.
pub mod Outcome
pub mod Termination
pub mod Disable
use recharge_plataform_api.Prelude.{
  ℕ, suc, Bool, true, false, Option, none, some, ◌++◌, if◌then◌else◌,
}
use recharge_plataform_api.Prelude.Text.{Text, codes, to_decimal}
use recharge_plataform_api.Prisma.{Prisma}
use recharge_plataform_api.Schema.{
  BigoRecharge, BigoResponse, BigoRechargeStatus, RequestBody, Endpoint, recharge_pre_check,
  rs_recharge, disable, other_endpoint, requested, success, retry_pending,
}
use recharge_plataform_api.Database.{
  World, Action, Result, ok, err, Error, js_error, message_of, pure, throw, try_catch, on_option,
  ◌>>=◌, ◌>>◌, update_bigo_recharge,
}
use recharge_plataform_api.Bigo.Message.{extract_rescode_from_error}
use recharge_plataform_api.Bigo.Queue.{should_retry, add_to_retry_queue, mark_as_failed, delete_key}
use recharge_plataform_api.Bigo.Request.{Exchange}
use recharge_plataform_api.Bigo.Service.{
  is_blank, recharge_precheck, diamond_recharge, disable_recharge, lift,
}

abbrev pub is_retry_pending : BigoRechargeStatus → Bool
is_retry_pending retry_pending = true
is_retry_pending s = false

abbrev unknown_endpoint : Text → Error
unknown_endpoint path = js_error (codes "Unknown endpoint: " ++ path)

abbrev pub empty_body : RequestBody
empty_body = record {
  recharge_bigoid = none;
  bu_orderid = none;
  value = none;
  total_cost = none;
  currency = none;
  seqid = none;
}

-- The fields of the stored body that each endpoint takes.
unfoldable pub reconstruct_dto : Endpoint → RequestBody → Result RequestBody
reconstruct_dto recharge_pre_check b =
    ok (record empty_body { recharge_bigoid = b.recharge_bigoid })
reconstruct_dto rs_recharge b = ok (record b { seqid = none })
reconstruct_dto disable b = ok (record empty_body { seqid = b.seqid })
reconstruct_dto (other_endpoint path) b = err (unknown_endpoint path)

abbrev pub as_requested : BigoRecharge → BigoRecharge
as_requested r = record r { status = requested }

module _ (P : Prisma) where
  -- The call that the endpoint of the row names.
  unfoldable pub call_endpoint :
      Endpoint → RequestBody → Option Text → Text → Exchange → ℕ → Action (World P) BigoResponse
  call_endpoint recharge_pre_check dto seqid generated x now =
      recharge_precheck P dto seqid generated x
  call_endpoint rs_recharge dto seqid generated x now = diamond_recharge P dto seqid generated x now
  call_endpoint disable dto seqid generated x now = disable_recharge P dto x now
  call_endpoint (other_endpoint path) dto seqid generated x now = throw (unknown_endpoint path)

  -- `recharge.seqid || requestBody?.seqid`
  abbrev pub retry_seqid : BigoRecharge → Option Text
  retry_seqid r = if is_blank (some r.seqid) then r.request_body.seqid else some r.seqid

  abbrev pub with_retry_success : ℕ → BigoResponse → BigoRecharge → BigoRecharge
  with_retry_success attempt response r = record r {
    status = success;
    response_body = some response;
    next_retry = none;
    message = some (codes "Retry " ++ (to_decimal attempt ++ codes " successful"));
  }

  -- A row that is still there is marked; one that is gone is an error.
  abbrev pub finish_retry : ℕ → ℕ → BigoResponse → Action (World P) (Unit {0})
  finish_retry recharge_id attempt response w =
      on_option
        (
          err (
              js_error (
                codes "Recharge "
                ++ (to_decimal recharge_id
                    ++ codes " not found when trying to update to SUCCESS"))),
          w,
        )
        (λ _. update_bigo_recharge P recharge_id (with_retry_success attempt response) w)
        (P.find_unique w.bigo_recharges recharge_id)

  -- The body of the `try`, for a row that waits for its retry.
  unfoldable pub retry_row :
      ℕ → ℕ → BigoRecharge → Text → Exchange → ℕ → Action (World P) (Unit {0})
  unfolding reconstruct_dto call_endpoint
  retry_row recharge_id attempt recharge generated x now = do
    update_bigo_recharge P recharge_id as_requested
    dto ← lift (reconstruct_dto recharge.endpoint recharge.request_body)
    response ← call_endpoint recharge.endpoint dto (retry_seqid recharge) generated x now
    finish_retry recharge_id attempt response

  -- The `catch`: try again later, or give up.
  unfoldable pub retry_failed : ℕ → ℕ → ℕ → Error → Action (World P) (Unit {0})
  retry_failed recharge_id attempt now e =
      let rescode : ℕ = extract_rescode_from_error (message_of e) in
      if should_retry rescode
      then add_to_retry_queue P recharge_id rescode (message_of e) (some (suc attempt)) now
      else mark_as_failed P recharge_id
          (codes "Retry " ++ (to_decimal attempt ++ (codes " failed: " ++ message_of e)))

  unfoldable pub process_specific_retry : ℕ → ℕ → Text → Exchange → ℕ → Action (World P) (Unit {0})
  unfolding retry_row retry_failed
  process_specific_retry recharge_id attempt generated x now w =
      let w' : World P = record w { retry_timeouts = delete_key recharge_id w.retry_timeouts } in
      on_option (ok tt, w')
        (λ recharge.
          (if is_retry_pending recharge.status
              then try_catch (retry_row recharge_id attempt recharge generated x now)
                  (retry_failed recharge_id attempt now)
              else pure tt)
            w')
        (P.find_unique w'.bigo_recharges recharge_id)
