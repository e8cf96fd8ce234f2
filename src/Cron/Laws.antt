-- ===== src/Cron/Laws.antt =====
-- What a run of the cron leaves in the table of its executions.
use recharge_plataform_api.Prelude.{
  ℕ, ◌+◌, ◌≤◌, ◌<◌, ◌≡◌, refl, sym, ◌∙◌, inl, inr, arith, Bool, true, ◌&&◌, none, some, List, [],
  ◌∷◌, length, count_if, HasRow, Distinct, Option-cases, ==→eq,
}
use recharge_plataform_api.Prisma.{Prisma}
use recharge_plataform_api.Utils.Calendar.{Calendar}
use recharge_plataform_api.Schema.{Store, MetricsCronExecution}
use recharge_plataform_api.Database.{World}
use recharge_plataform_api.Metrics.{
  recalculate_store_metrics, recalculate_at, recalculate_daily_metrics, recalculate_monthly_metrics,
  recalculate_monthly_by_product_metrics,
}
use recharge_plataform_api.Order.Expiry.{check_and_expire_orders}
use recharge_plataform_api.Cron.{
  max_date_retries, CronRun, on_date, retry_count, process_stores, is_some, is_retryable,
}

at_most_one :
    {R : Type 0} (rows : List (ℕ × R))
    → Distinct rows
    → ((i j : ℕ) (r s : R) → HasRow i r rows → HasRow j s rows → i ≡ j)
    → length rows ≤ 1
at_most_one [] d same = omega arith
at_most_one (a ∷ []) d same = omega arith
at_most_one ((i, r) ∷ (j, s) ∷ rows) d same =
    let e : i ≡ j = same i j r s (inl (refl, refl)) (inr (inl (refl, refl))) in
    absurd (d.0 s (inl (e, refl)))

module _ (P : Prisma) (calendar : Calendar) where
  -- No two executions of a date (`executionDate @unique`).
  abbrev pub DatesUnique : P.Table MetricsCronExecution → Type 0
  DatesUnique t =
      (i j : ℕ) (r s : MetricsCronExecution)
      → P.find_unique t i ≡ some r
      → P.find_unique t j ≡ some s
      → r.execution_date ≡ s.execution_date
      → i ≡ j

  passes :
      (date : ℕ) (r : MetricsCronExecution)
      → (on_date date r && is_retryable r.status) ≡ true
      → r.execution_date ≡ date
  passes date r h = ground (arith, ==→eq r.execution_date date)

  retry_count-le_one :
      (date : ℕ) (w : World P) → DatesUnique w.cron_executions → retry_count P calendar date w ≤ 1
  unfolding retry_count
  retry_count-le_one date w unique =
      let test : MetricsCronExecution → Bool = λ r. on_date date r && is_retryable r.status in
      at_most_one (P.find_many w.cron_executions test) (P.find_many_distinct w.cron_executions test)
        λ i j r s hr hs.
          let (there_r, ok_r) = P.find_many_sound w.cron_executions test i r hr in
          let (there_s, ok_s) = P.find_many_sound w.cron_executions test j s hs in
          unique i j r s there_r there_s (passes date r ok_r ∙ sym (passes date s ok_s))

  -- Where the executions' dates are unique, getRetryCount of any date is below MAX_RETRIES.
  pub retry_count-lt :
      (date : ℕ) (w : World P)
      → DatesUnique w.cron_executions
      → retry_count P calendar date w < max_date_retries
  retry_count-lt date w unique = omega (arith, retry_count-le_one date w unique)

  -- Recalculating the metrics of a store leaves the executions alone.
  recalculate_keeps :
      (store date now hours : ℕ) (w : World P)
      → (recalculate_store_metrics P calendar store date now hours w).cron_executions
        ≡ w.cron_executions
  unfolding recalculate_store_metrics recalculate_at recalculate_daily_metrics
      recalculate_monthly_metrics recalculate_monthly_by_product_metrics check_and_expire_orders
  recalculate_keeps store date now hours w = refl

  -- The run meets no error of the database.
  abbrev pub NoOutage : CronRun → Type 0
  NoOutage run = (run.stores_error ≡ none) × ((id : ℕ) → run.store_error id ≡ none)

  pub process_stores_keeps :
      (run : CronRun) (date : ℕ) (stores : List (ℕ × Store)) (w : World P)
      → (process_stores P calendar run date stores w).2.cron_executions ≡ w.cron_executions
  unfolding process_stores
  process_stores_keeps run date [] w = refl
  process_stores_keeps run date ((id, s) ∷ stores) w = elim (Option-cases (run.store_error id)) [
    | inl fine ↦ rw fine (
        process_stores_keeps run date stores
          (recalculate_store_metrics P calendar id date run.now run.hours w)
        ∙ recalculate_keeps id date run.now run.hours w)
    | inr (e, lost) ↦ rw lost (process_stores_keeps run date stores w)
  ]

  -- Every store is counted once, as processed or as failed.
  pub process_stores_count :
      (run : CronRun) (date : ℕ) (stores : List (ℕ × Store)) (w : World P)
      → ((process_stores P calendar run date stores w).1
          ≡ count_if (λ (s : ℕ × Store). is_some (run.store_error s.0)) stores)
        × ((process_stores P calendar run date stores w).0
              + (process_stores P calendar run date stores w).1
            ≡ length stores)
  unfolding process_stores
  process_stores_count run date [] w = (refl, omega arith)
  process_stores_count run date ((id, s) ∷ stores) w = elim (Option-cases (run.store_error id)) [
    | inl fine ↦ rw fine (
        ground (
          arith,
          process_stores_count run date stores
              (recalculate_store_metrics P calendar id date run.now run.hours w),
        ))
    | inr (e, lost) ↦ rw lost (ground (arith, process_stores_count run date stores w))
  ]

  pub no_failures :
      (run : CronRun) (stores : List (ℕ × Store))
      → ((id : ℕ) → run.store_error id ≡ none)
      → count_if (λ (s : ℕ × Store). is_some (run.store_error s.0)) stores ≡ 0
  no_failures run [] fine = refl
  no_failures run ((id, s) ∷ stores) fine =
      rw (fine id) (omega (arith, no_failures run stores fine))
