-- ===== src/Bigo/Retry/Termination.antt =====
-- A recharge is retried at most three times, and then it has succeeded or failed.
use recharge_plataform_api.Prelude.{
  ℕ, suc, ◌+◌, ◌≤◌, ◌≡◌, ◌≢◌, inl, inr, false, some, List, [], ◌∷◌, arith, length, Option-cases,
}
use recharge_plataform_api.Prelude.Text.{Text}
use recharge_plataform_api.Prisma.{Prisma}
use recharge_plataform_api.Schema.{BigoRecharge, disable, retry_pending}
use recharge_plataform_api.Database.{World}
use recharge_plataform_api.Bigo.Request.{Exchange}
use recharge_plataform_api.Bigo.Service.{is_blank}
use recharge_plataform_api.Bigo.Retry.{is_retry_pending, process_specific_retry}
use recharge_plataform_api.Bigo.Retry.Outcome.{IsSettled, process_specific_retry_outcome}

module _ (P : Prisma) where
  -- The timers of one recharge fire one after the other, each with what the API answers to it.
  unfoldable pub run_retries : ℕ → ℕ → Text → ℕ → List Exchange → World P → World P
  run_retries id attempt generated now [] w = w
  run_retries id attempt generated now (x ∷ xs) w =
      run_retries id (suc attempt) generated now xs
        (process_specific_retry P id attempt generated x now w).1

  -- A timer that fires for a settled recharge changes nothing of it.
  IsSettled-stays :
      (id attempt : ℕ) (generated : Text) (x : Exchange) (now : ℕ) (w : World P)
      → IsSettled P id w
      → IsSettled P id (process_specific_retry P id attempt generated x now w).1
  unfolding process_specific_retry
  IsSettled-stays id attempt generated x now w h =
      elim (Option-cases (P.find_unique w.bigo_recharges id)) [
        | inl gone ↦ rw (gone, process_specific_retry) h
        | inr (r, found) ↦
            let idle : is_retry_pending r.status ≡ false = ground arith in
            rw (found, process_specific_retry, idle) h
      ]

  run_retries-IsSettled :
      (id attempt : ℕ) (generated : Text) (now : ℕ) (xs : List Exchange) (w : World P)
      → IsSettled P id w
      → IsSettled P id (run_retries id attempt generated now xs w)
  unfolding run_retries
  run_retries-IsSettled id attempt generated now [] w h = h
  run_retries-IsSettled id attempt generated now (x ∷ xs) w h =
      run_retries-IsSettled id (suc attempt) generated now xs _
        (IsSettled-stays id attempt generated x now w h)

  -- Whatever the API answers, a recharge that waits for retry number `attempt` (on an endpoint other
  -- than `disable`, with a sequence id) is SUCCESS or FAILED once its timers have fired for the
  -- retries up to the third, and at least once.
  pub run_retries_settle :
      (id attempt : ℕ) (generated : Text) (now : ℕ) (x : Exchange) (xs : List Exchange)
      (w : World P) {r : BigoRecharge}
      → P.find_unique w.bigo_recharges id ≡ some r
      → r.status ≡ retry_pending
      → r.endpoint ≢ disable
      → is_blank (some r.seqid) ≡ false
      → 3 ≤ attempt + length xs
      → IsSettled P id (run_retries id attempt generated now (x ∷ xs) w)
  unfolding run_retries
  run_retries_settle id attempt generated now x [] w found pending other given enough =
      elim (process_specific_retry_outcome P id attempt generated x now w found pending other
        given) [ inl done ↦ done.0 | inr (early, waits) ↦ absurd (omega arith) ]
  run_retries_settle id attempt generated now x (y ∷ ys) w found pending other given enough =
      elim (process_specific_retry_outcome P id attempt generated x now w found pending other
        given) [
          | inl done ↦ run_retries-IsSettled id (suc attempt) generated now (y ∷ ys) _ done.0
          | inr (early, (q, there, waits, n, same_endpoint, same_seqid, timer, number, old)) ↦
              run_retries_settle id (suc attempt) generated now y ys _ there waits
                (rw same_endpoint other) (rw same_seqid given) (omega arith)
        ]
