-- ===== src/Bigo/Frame.antt =====
-- The Bigo services write the log of recharges and the retry timers, and nothing else: a view of the
-- state that reads neither is kept by all of them.
use recharge_plataform_api.Prelude.{ℕ, ◌≡◌, refl, ◌∙◌, Option, List}
use recharge_plataform_api.Prelude.Text.{Text}
use recharge_plataform_api.Prisma.{Prisma}
use recharge_plataform_api.Schema.{
  BigoRecharge, RequestBody, Endpoint, recharge_pre_check, rs_recharge, disable, other_endpoint,
}
use recharge_plataform_api.Database.{
  World, Timer, ok, Error, try_catch, update_bigo_recharge, create_bigo_recharge,
}
use recharge_plataform_api.Database.Frame.{
  Keeps, Keeps-then, Keeps-try, Keeps-if, keeps_option, Keeps-read, Keeps-result, keeps_update_row,
  frame_rules,
}
use recharge_plataform_api.Bigo.Queue.{
  mark_as_failed, as_failed, delete_key, schedule_retry, enqueue, add_to_retry_queue,
}
use recharge_plataform_api.Bigo.Request.{Exchange}
use recharge_plataform_api.Bigo.Service.{
  recharge_precheck, log_recharge, diamond_recharge, disable_recharge,
}
use recharge_plataform_api.Bigo.Retry.{
  is_retry_pending, call_endpoint, retry_row, retry_failed, process_specific_retry,
}

module _ (P : Prisma) {B : Type 0} (view : World P → B)
    (no_log : (w : World P) (t : P.Table BigoRecharge)
      → view (record w { bigo_recharges = t }) ≡ view w)
    (no_timers : (w : World P) (ts : List Timer) (n : ℕ) (m : List (ℕ × ℕ))
      → view (record w { timers = ts; next_handle = n; retry_timeouts = m }) ≡ view w) where
  update-Keeps :
      (id : ℕ) (f : BigoRecharge → BigoRecharge) → Keeps view (update_bigo_recharge P id f)
  update-Keeps id f = record {
    kept = λ w.
        keeps_update_row P view w.bigo_recharges (λ t. record w { bigo_recharges = t }) id f w
          (λ t. no_log w t);
  }

  create-Keeps : (r : BigoRecharge) → Keeps view (create_bigo_recharge P r)
  create-Keeps r = record { kept = λ w. keeps_option view w _ _ _ (no_log w _) (λ _. refl) }

  mark-Keeps : (id : ℕ) (m : Text) → Keeps view (mark_as_failed P id m)
  unfolding mark_as_failed
  mark-Keeps id m = update-Keeps id (as_failed m)

  schedule-Keeps : (id n delay_ms : ℕ) → Keeps view (schedule_retry P id n delay_ms)
  unfolding schedule_retry
  schedule-Keeps id n delay_ms = record { kept = λ w. no_timers w _ _ _ }

  enqueue-Keeps :
      (id rescode : ℕ) (m : Text) (n now : ℕ) → Keeps view (enqueue P id rescode m n now)
  unfolding enqueue
  enqueue-Keeps id rescode m n now = record {
    kept = λ w.
        keeps_option view w _ _ (P.find_unique w.bigo_recharges id) refl
          (λ _. (Keeps-then {view = view} (update-Keeps id _) (schedule-Keeps id n _)).kept w);
  }

  add-Keeps :
      (id rescode : ℕ) (m : Text) (n : Option ℕ) (now : ℕ)
      → Keeps view (add_to_retry_queue P id rescode m n now)
  unfolding add_to_retry_queue
  add-Keeps id rescode m n now = search (frame_rules, mark-Keeps, enqueue-Keeps)

  log-Keeps : (body : RequestBody) (seqid : Text) → Keeps view (log_recharge P body seqid)
  unfolding log_recharge
  log-Keeps body seqid = search (Keeps-read, Keeps-result, create-Keeps)

  pub diamond_recharge-Keeps :
      (dto : RequestBody) (seqid : Option Text) (generated : Text) (x : Exchange) (now : ℕ)
      → Keeps view (diamond_recharge P dto seqid generated x now)
  unfolding diamond_recharge
  diamond_recharge-Keeps dto seqid generated x now =
      search (frame_rules, log-Keeps, add-Keeps, update-Keeps) depth 9

  pub precheck-Keeps :
      (dto : RequestBody) (seqid : Option Text) (generated : Text) (x : Exchange)
      → Keeps view (recharge_precheck P dto seqid generated x)
  unfolding recharge_precheck
  precheck-Keeps dto seqid generated x = search (frame_rules, create-Keeps) depth 9

  disable-Keeps :
      (dto : RequestBody) (x : Exchange) (now : ℕ) → Keeps view (disable_recharge P dto x now)
  unfolding disable_recharge
  disable-Keeps dto x now = search (frame_rules, create-Keeps, add-Keeps, update-Keeps) depth 9

  call-Keeps :
      (ep : Endpoint) (dto : RequestBody) (seqid : Option Text) (generated : Text) (x : Exchange)
      (now : ℕ)
      → Keeps view (call_endpoint P ep dto seqid generated x now)
  unfolding call_endpoint
  call-Keeps recharge_pre_check dto seqid generated x now = precheck-Keeps dto seqid generated x
  call-Keeps rs_recharge dto seqid generated x now =
      diamond_recharge-Keeps dto seqid generated x now
  call-Keeps disable dto seqid generated x now = disable-Keeps dto x now
  call-Keeps (other_endpoint path) dto seqid generated x now = Keeps-result _

  retry_row-Keeps :
      (id attempt : ℕ) (r : BigoRecharge) (generated : Text) (x : Exchange) (now : ℕ)
      → Keeps view (retry_row P id attempt r generated x now)
  unfolding retry_row
  retry_row-Keeps id attempt r generated x now =
      search (frame_rules, call-Keeps, update-Keeps) depth 9

  retry_failed-Keeps :
      (id attempt now : ℕ) (e : Error) → Keeps view (retry_failed P id attempt now e)
  unfolding retry_failed
  retry_failed-Keeps id attempt now e = search (frame_rules, add-Keeps, mark-Keeps)

  try_row-Keeps :
      (id attempt : ℕ) (r : BigoRecharge) (generated : Text) (x : Exchange) (now : ℕ)
      → Keeps view
          (try_catch (retry_row P id attempt r generated x now) (retry_failed P id attempt now))
  try_row-Keeps id attempt r generated x now =
      Keeps-try (retry_row-Keeps id attempt r generated x now) (retry_failed-Keeps id attempt now)

  forget_keeps :
      (id : ℕ) (w : World P)
      → view (record w { retry_timeouts = delete_key id w.retry_timeouts }) ≡ view w
  forget_keeps id w = no_timers w w.timers w.next_handle _

  pub process_specific_retry-Keeps :
      (id attempt : ℕ) (generated : Text) (x : Exchange) (now : ℕ)
      → Keeps view (process_specific_retry P id attempt generated x now)
  unfolding process_specific_retry
  process_specific_retry-Keeps id attempt generated x now = record {
    kept = λ w.
        let w' : World P = record w { retry_timeouts = delete_key id w.retry_timeouts } in
        keeps_option view w' (ok tt, w') _ (P.find_unique w.bigo_recharges id) refl
          (λ r.
            (Keeps-if (is_retry_pending r.status) (try_row-Keeps id attempt r generated x now)
                (Keeps-result (ok tt))).kept
              w')
        ∙ forget_keeps id w;
  }
