-- ===== src/Cron/Outcome.antt =====
-- The record that the execution of a date leaves.
use recharge_plataform_api.Prelude.{
  ℕ, ◌+◌, ◌≡◌, ◌⊎◌, refl, inl, inr, ap, ◌∙◌, arith, Bool, true, not, none, some, List, [], ◌∷◌,
  length, count_if, all, ◌==◌,
}
use recharge_plataform_api.Prisma.{Prisma}
use recharge_plataform_api.Utils.Calendar.{Calendar}
use recharge_plataform_api.Schema.{Store, MetricsCronExecution}
use recharge_plataform_api.Database.{World}
use recharge_plataform_api.Cron.{
  CronRun, process_metrics_for_date, final_status, is_success, is_some,
}
use recharge_plataform_api.Cron.Laws.{DatesUnique, process_stores_count}
use recharge_plataform_api.Cron.Runs.{run_execution-Row, stores_of, started, started_stores}
use recharge_plataform_api.Cron.Recovery.{IsDone, process_cases}

module _ (run : CronRun) where
  abbrev pub is_lost : ℕ × Store → Bool
  is_lost s = is_some (run.store_error s.0)

  none_lost :
      (stores : List (ℕ × Store))
      → (count_if is_lost stores == 0) ≡ all (λ s. not (is_lost s)) stores
  none_lost [] = refl
  none_lost (s ∷ stores) = ground (arith, none_lost stores)

is_success-final_status :
    (failed total : ℕ) → is_success (final_status failed total) ≡ (failed == 0)
is_success-final_status failed total = ground arith

module _ (P : Prisma) (calendar : Calendar) (run : CronRun) where
  -- Where the executions' dates are unique and the list of the stores can be read, processing a date
  -- either changes nothing, since the date has a successful execution, or leaves an execution of the
  -- date that counts every store once, as processed or as failed, and is SUCCESS exactly if no store
  -- failed.
  pub process_outcome :
      (target : ℕ) (w : World P)
      → DatesUnique P calendar w.cron_executions
      → run.stores_error ≡ none
      → let date : ℕ = calendar.start_of_day target in
        let stores : List (ℕ × Store) = stores_of P calendar run date w in
        let w' : World P = process_metrics_for_date P calendar run target w in
        ((w' ≡ w) × IsDone P calendar date w)
        ⊎ ((id : ℕ) × (r : MetricsCronExecution) × (P.find_unique w'.cron_executions id ≡ some r)
            × (r.execution_date ≡ date)
            × (r.stores_total ≡ length stores)
            × (r.stores_processed + count_if (is_lost run) stores ≡ r.stores_total)
            × (is_success r.status ≡ all (λ s. not (is_lost run s)) stores))
  process_outcome target w unique fine = elim (process_cases P calendar run target w unique) [
    | inr (same, done) ↦ inl (same, done)
    | inl ran ↦
        let date : ℕ = calendar.start_of_day target in
        let (id, r, there, on, status, processed, total) =
          run_execution-Row P calendar run date w fine in
        let w1 : World P = (started P calendar run date w).1 in
        let (lost, counted) =
          process_stores_count P calendar run date (stores_of P calendar run date w1) w1 in
        let same_stores : stores_of P calendar run date w1 ≡ stores_of P calendar run date w =
          ap (λ t. P.find_many t (λ s. true)) (started_stores P calendar run date w) in
        rw ran (
          inr (
            id,
            r,
            there,
            on,
            total ∙ ap length same_stores,
            omega (arith, processed, counted, lost, total, ap (count_if (is_lost run)) same_stores),
            ap is_success status
                ∙ is_success-final_status _ r.stores_total
                ∙ ap (λ n. n == 0) lost
                ∙ none_lost run (stores_of P calendar run date w1)
                ∙ ap (all (λ s. not (is_lost run s))) same_stores,
          ))
  ]
