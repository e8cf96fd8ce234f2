-- ===== src/Bigo/Retry/Disable.antt =====
-- Why a retry on `/sign/agent/disable` cannot succeed: `disableRecharge` logs the call again under the
-- sequence id of the row that is retried, and sequence ids are unique.
use recharge_plataform_api.Prelude.{
  ℕ, ◌≡◌, refl, ◌⊎◌, inl, inr, true, none, some, List, [], ◌∷◌, ap, head?, HasRow,
}
use recharge_plataform_api.Prelude.Text.{Text, text_eq_self}
use recharge_plataform_api.Prisma.{Prisma, p2002}
use recharge_plataform_api.Schema.{
  BigoRecharge, RequestBody, disable, retry_pending, failed, clashes,
}
use recharge_plataform_api.Database.{World, err, client_error, continue}
use recharge_plataform_api.Database.Laws.{find-update_self}
use recharge_plataform_api.Bigo.Queue.{delete_key}
use recharge_plataform_api.Bigo.Request.{Exchange}
use recharge_plataform_api.Bigo.Service.{or_text, disable_recharge, log_entry}
use recharge_plataform_api.Bigo.Retry.{
  as_requested, empty_body, finish_retry, reconstruct_dto, call_endpoint, retry_row,
  process_specific_retry,
}
use recharge_plataform_api.Bigo.Retry.Outcome.{status_of, retry_failed_outcome, in_progress}

or_text_nil : (t : Text) → or_text (some t) [] ≡ t
or_text_nil [] = refl
or_text_nil (c ∷ cs) = refl

head-HasRow :
    {R : Type 0} (i : ℕ) (r : R) (rows : List (ℕ × R))
    → HasRow i r rows
    → (e : ℕ × R) × (head? rows ≡ some e)
head-HasRow i r [] h = absurd h
head-HasRow i r (e ∷ rows) h = (e, refl)

module _ (P : Prisma) where
  -- The row that is retried clashes with the row that `disableRecharge` would create.
  disable_recharge_clash :
      (id : ℕ) (x : Exchange) (now : ℕ) (w : World P) (dto : RequestBody) {r : BigoRecharge}
      → P.find_unique w.bigo_recharges id ≡ some r
      → dto.seqid ≡ some r.seqid
      → disable_recharge P dto x now w ≡ (err (client_error P p2002), w)
  unfolding disable_recharge
  disable_recharge_clash id x now w dto {r} found same =
      let new : BigoRecharge = log_entry (or_text dto.seqid []) none disable dto in
      let clash : clashes new r ≡ true = rw (same, or_text_nil, text_eq_self) refl in
      let (e, first) =
        head-HasRow id r (P.find_many w.bigo_recharges (clashes new))
          (P.find_many_complete w.bigo_recharges (clashes new) id r found clash) in
      rw first

  retry_row_clash :
      (id attempt : ℕ) (r : BigoRecharge) (generated : Text) (x : Exchange) (now : ℕ) (w : World P)
      → P.find_unique w.bigo_recharges id ≡ some r
      → r.endpoint ≡ disable
      → r.request_body.seqid ≡ some r.seqid
      → retry_row P id attempt r generated x now w
        ≡ (err (client_error P p2002), in_progress P id w)
  unfolding retry_row reconstruct_dto call_endpoint
  retry_row_clash id attempt r generated x now w found endpoint same =
      rw (found, retry_row, endpoint)
        (ap (continue (finish_retry P id attempt)) (
          disable_recharge_clash id x now (in_progress P id w)
            (record empty_body { seqid = r.request_body.seqid })
            (find-update_self P w.bigo_recharges id as_requested found) same))

  -- A row of `disableRecharge` that waits for a retry, its body holding its sequence id: whatever the
  -- API would answer, firing its timer leaves it waiting or FAILED.
  pub disable_retry_fails :
      (id attempt : ℕ) (generated : Text) (x : Exchange) (now : ℕ) (w : World P) {r : BigoRecharge}
      → P.find_unique w.bigo_recharges id ≡ some r
      → r.status ≡ retry_pending
      → r.endpoint ≡ disable
      → r.request_body.seqid ≡ some r.seqid
      → let w' = (process_specific_retry P id attempt generated x now w).1 in
        (status_of P id w' ≡ some retry_pending) ⊎ (status_of P id w' ≡ some failed)
  unfolding process_specific_retry
  disable_retry_fails id attempt generated x now w {r} found pending endpoint same =
      let w' : World P = record w { retry_timeouts = delete_key id w.retry_timeouts } in
      let clash = retry_row_clash id attempt r generated x now w' found endpoint same in
      rw (found, process_specific_retry, pending, clash)
        (elim (retry_failed_outcome P id attempt now (client_error P p2002) (in_progress P id w')
          (find-update_self P w.bigo_recharges id as_requested found)) [
            | inl (marked, kept) ↦ inr marked
            | inr
                  (
                    early,
                    (q, there, waits, number, same_endpoint, same_seqid, timer, attempt_set, old),
                  ) ↦
                inl (rw there (ap some waits))
          ])
