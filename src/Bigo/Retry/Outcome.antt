-- ===== src/Bigo/Retry/Outcome.antt =====
-- What one retry does to the row of its recharge and to the timers.
use recharge_plataform_api.Prelude.{
  ℕ, suc, ◌+◌, ◌*◌, ◌<◌, ◌≡◌, ◌≢◌, refl, ◌⊎◌, inl, inr, false, Option, none, some, List, [], ◌∷◌,
  arith, ap, ltb, map_option, Bool-cases,
}
use recharge_plataform_api.Prelude.Text.{Text}
use recharge_plataform_api.Prisma.{Prisma}
use recharge_plataform_api.Schema.{
  BigoRecharge, BigoResponse, BigoRechargeStatus, RequestBody, Endpoint, recharge_pre_check,
  rs_recharge, disable, other_endpoint, success, failed, retry_pending,
}
use recharge_plataform_api.Database.{
  World, Timer, Result, ok, err, Error, message_of, Result-cases, continue, handle_error,
}
use recharge_plataform_api.Database.Laws.{find-update_self}
use recharge_plataform_api.Bigo.Message.{extract_rescode_from_error}
use recharge_plataform_api.Bigo.Queue.{
  should_retry, add_to_retry_queue, enqueue, mark_as_failed, delete_key, get_retry_delay,
  max_retries, as_failed, as_retry_pending,
}
use recharge_plataform_api.Bigo.Request.{Exchange, make_signed_request}
use recharge_plataform_api.Bigo.Service.{is_blank, recharge_precheck, diamond_recharge}
use recharge_plataform_api.Bigo.Retry.{
  as_requested, reconstruct_dto, retry_seqid, finish_retry, with_retry_success, call_endpoint,
  retry_row, retry_failed, process_specific_retry,
}

abbrev pub first : List Timer → Option Timer
first [] = none
first (t ∷ ts) = some t

abbrev pub rest : List Timer → List Timer
rest [] = []
rest (t ∷ ts) = ts

module _ (P : Prisma) where
  abbrev pub status_of : ℕ → World P → Option BigoRechargeStatus
  status_of id w = map_option (λ r. r.status) (P.find_unique w.bigo_recharges id)

  -- The recharge has reached a state that no timer changes.
  abbrev pub IsSettled : ℕ → World P → Type 0
  IsSettled id w = (status_of id w ≡ some success) ⊎ (status_of id w ≡ some failed)

  -- The recharge, once the row `r`, waits for retry number `n`, whose timer is the one set last.
  abbrev pub Waits : ℕ → ℕ → BigoRecharge → List Timer → World P → Type 0
  Waits id n r old w =
      (q : BigoRecharge) × (P.find_unique w.bigo_recharges id ≡ some q)
      × (q.status ≡ retry_pending)
      × (q.attempts ≡ n)
      × (q.endpoint ≡ r.endpoint)
      × (q.seqid ≡ r.seqid)
      × (map_option (λ t. t.recharge_id) (first w.timers) ≡ some id)
      × (map_option (λ t. t.attempt) (first w.timers) ≡ some n)
      × (rest w.timers ≡ old)

  mark_as_failed_outcome :
      (id : ℕ) (m : Text) (w : World P) {r : BigoRecharge}
      → P.find_unique w.bigo_recharges id ≡ some r
      → (status_of id (mark_as_failed P id m w).1 ≡ some failed)
        × ((mark_as_failed P id m w).1.timers ≡ w.timers)
  unfolding mark_as_failed
  mark_as_failed_outcome id m w found =
      ground (arith, find-update_self P w.bigo_recharges id (as_failed m) found)

  enqueue_outcome :
      (id rescode : ℕ) (m : Text) (n now : ℕ) (w : World P) {r : BigoRecharge}
      → P.find_unique w.bigo_recharges id ≡ some r
      → Waits id n r w.timers (enqueue P id rescode m n now w).1
  unfolding enqueue
  enqueue_outcome id rescode m n now w {r} found =
      let delay_ms : ℕ = get_retry_delay rescode n * 60 * 1000 in
      let there =
        find-update_self P w.bigo_recharges id (as_retry_pending (now + delay_ms) n rescode m)
          found in
      rw (found, enqueue)
        (
          as_retry_pending (now + delay_ms) n rescode m r,
          there,
          refl,
          refl,
          refl,
          refl,
          refl,
          refl,
          refl,
        )

  -- The attempt that is queued is at most the third.
  add_outcome :
      (id rescode : ℕ) (m : Text) (n now : ℕ) (w : World P) {r : BigoRecharge}
      → P.find_unique w.bigo_recharges id ≡ some r
      → let w' = (add_to_retry_queue P id rescode m (some (suc n)) now w).1 in
        ((status_of id w' ≡ some failed) × (w'.timers ≡ w.timers))
        ⊎ ((n < 3) × Waits id (suc n) r w.timers w')
  unfolding add_to_retry_queue
  add_outcome id rescode m n now w found = elim (Bool-cases (should_retry rescode)) [
    | inr once ↦
        let (marked, kept) = mark_as_failed_outcome id _ w found in rw once (inl (marked, kept))
    | inl again ↦ elim (Bool-cases (ltb max_retries (suc n))) [
      | inl over ↦
          let (marked, kept) = mark_as_failed_outcome id _ w found in
          rw (again, over) (inl (marked, kept))
      | inr within ↦
          rw (again, within) (inr (ground arith, enqueue_outcome id rescode m (suc n) now w found))
    ]
  ]

  pub retry_failed_outcome :
      (id attempt now : ℕ) (e : Error) (w : World P) {r : BigoRecharge}
      → P.find_unique w.bigo_recharges id ≡ some r
      → let w' = (retry_failed P id attempt now e w).1 in
        ((status_of id w' ≡ some failed) × (w'.timers ≡ w.timers))
        ⊎ ((attempt < 3) × Waits id (suc attempt) r w.timers w')
  unfolding retry_failed
  retry_failed_outcome id attempt now e w found =
      elim (Bool-cases (should_retry (extract_rescode_from_error (message_of e)))) [
        | inl again ↦ rw again (
            add_outcome id (extract_rescode_from_error (message_of e)) (message_of e) attempt now w
              found)
        | inr once ↦
            let (marked, kept) = mark_as_failed_outcome id _ w found in rw once (inl (marked, kept))
      ]

  -- A call with a sequence id writes no log row, except for `disable`.
  call_endpoint_quiet :
      (ep : Endpoint) (dto : RequestBody) (seqid : Option Text) (generated : Text) (x : Exchange)
      (now : ℕ) (w : World P)
      → ep ≢ disable
      → is_blank seqid ≡ false
      → (call_endpoint P ep dto seqid generated x now w).1 ≡ w
  unfolding call_endpoint recharge_precheck diamond_recharge
  call_endpoint_quiet recharge_pre_check dto seqid generated x now w other given =
      rw given
        (elim (Result-cases (make_signed_request x)) [ inl (r, e) ↦ rw e | inr (r, e) ↦ rw e ])
  call_endpoint_quiet rs_recharge dto seqid generated x now w other given =
      rw given
        (elim (Result-cases (make_signed_request x)) [ inl (r, e) ↦ rw e | inr (r, e) ↦ rw e ])
  call_endpoint_quiet disable dto seqid generated x now w other given = absurd (other refl)
  call_endpoint_quiet (other_endpoint path) dto seqid generated x now w other given = refl

  -- The row while its retry runs.
  abbrev pub in_progress : ℕ → World P → World P
  in_progress id w = record w { bigo_recharges = P.update w.bigo_recharges id as_requested }

  -- The body of the `try` ends with the row marked, or throws with the row in progress.
  RowOutcome : ℕ → World P → Result (Unit {0}) × World P → Type 0
  RowOutcome id w (ok u, w') = (status_of id w' ≡ some success) × (w'.timers ≡ w.timers)
  RowOutcome id w (err e, w') = w' ≡ in_progress id w

  -- What follows the reconstruction of the body, for a call that leaves the row in progress.
  call_and_finish :
      (id attempt : ℕ) (w : World P) (c : Result BigoResponse × World P) {r : BigoRecharge}
      → P.find_unique w.bigo_recharges id ≡ some r
      → c.1 ≡ in_progress id w
      → RowOutcome id w (continue (finish_retry P id attempt) c)
  unfolding RowOutcome
  call_and_finish id attempt w (ok response, w') found same =
      let there = find-update_self P w.bigo_recharges id as_requested found in
      rw (same, there)
        (
          ap (map_option (λ r. r.status))
              (find-update_self P _ id (with_retry_success P attempt response) there),
          refl,
        )
  call_and_finish id attempt w (err e, w') found same = same

  retry_row_outcome :
      (id attempt : ℕ) (r : BigoRecharge) (generated : Text) (x : Exchange) (now : ℕ) (w : World P)
      → P.find_unique w.bigo_recharges id ≡ some r
      → r.endpoint ≢ disable
      → is_blank (some r.seqid) ≡ false
      → RowOutcome id w (retry_row P id attempt r generated x now w)
  unfolding retry_row RowOutcome
  retry_row_outcome id attempt r generated x now w found other given =
      elim (Result-cases (reconstruct_dto r.endpoint r.request_body)) [
        | inl (dto, e) ↦
            rw (found, retry_row, e)
              (call_and_finish id attempt w
                (call_endpoint P r.endpoint dto (retry_seqid P r) generated x now
                  (in_progress id w))
                found
                (call_endpoint_quiet r.endpoint dto (retry_seqid P r) generated x now
                  (in_progress id w) other (rw given given)))
        | inr (error, e) ↦ rw (found, retry_row, e) refl
      ]

  handle-RowOutcome :
      (id attempt now : ℕ) (w : World P) (c : Result (Unit {0}) × World P) {r : BigoRecharge}
      → P.find_unique w.bigo_recharges id ≡ some r
      → RowOutcome id w c
      → let w' = (handle_error (retry_failed P id attempt now) c).1 in
        (IsSettled id w' × (w'.timers ≡ w.timers))
        ⊎ ((attempt < 3) × Waits id (suc attempt) r w.timers w')
  unfolding RowOutcome
  handle-RowOutcome id attempt now w (ok u, w') found done = inl (inl done.0, done.1)
  handle-RowOutcome id attempt now w (err e, w') found same =
      elim (retry_failed_outcome id attempt now e (in_progress id w)
        (find-update_self P w.bigo_recharges id as_requested found)) [
          | inl (marked, kept) ↦ rw same (inl (inr marked, kept))
          | inr later ↦ rw same (inr later)
        ]

  -- When the timer of retry number `attempt` fires for a recharge that waits for it (on an endpoint
  -- other than `disable`, with a sequence id), the recharge ends as SUCCESS or FAILED with no timer
  -- added, or waits for the next retry, which is at most the third, with exactly one timer added.
  pub process_specific_retry_outcome :
      (id attempt : ℕ) (generated : Text) (x : Exchange) (now : ℕ) (w : World P) {r : BigoRecharge}
      → P.find_unique w.bigo_recharges id ≡ some r
      → r.status ≡ retry_pending
      → r.endpoint ≢ disable
      → is_blank (some r.seqid) ≡ false
      → let w' = (process_specific_retry P id attempt generated x now w).1 in
        (IsSettled id w' × (w'.timers ≡ w.timers))
        ⊎ ((attempt < 3) × Waits id (suc attempt) r w.timers w')
  unfolding process_specific_retry
  process_specific_retry_outcome id attempt generated x now w {r} found pending other given =
      let w' : World P = record w { retry_timeouts = delete_key id w.retry_timeouts } in
      rw (found, process_specific_retry, pending)
        (handle-RowOutcome id attempt now w' (retry_row P id attempt r generated x now w') found
          (retry_row_outcome id attempt r generated x now w' found other given))
