-- ===== src/Cron/Recovery.antt =====
-- Which dates are done after the cron has run.
use recharge_plataform_api.Prelude.{
  ℕ, suc, ◌+◌, ◌-◌, ◌*◌, ◌<◌, ◌≡◌, ◌≢◌, ◌⊎◌, refl, sym, subst, ◌∙◌, inl, inr, arith, Bool, true,
  false, ◌&&◌, none, some, List, [], ◌∷◌, any, All, HasRow, ◌==◌, leb, ltb, Option-cases,
  Bool-cases, ==→eq,
}
use recharge_plataform_api.Prisma.{Prisma}
use recharge_plataform_api.Utils.Calendar.{Calendar}
use recharge_plataform_api.Schema.{
  MetricsCronExecution, CronStatus, cron_success, cron_failed, cron_partial, cron_processing,
  cron_failed_permanent,
}
use recharge_plataform_api.Database.{World}
use recharge_plataform_api.Cron.{
  CronRun, retry_count, find_execution, run_execution, process_metrics_for_date, final_status,
  is_success, max_date_retries, day_ms, missing_days, process_days, five_days_ago, is_processed,
  check_and_recover_missing_days, process_daily_metrics,
}
use recharge_plataform_api.Cron.Laws.{DatesUnique, NoOutage, retry_count-lt}
use recharge_plataform_api.Cron.Days.{missing_days_complete, missing_days-midnights}
use recharge_plataform_api.Cron.Runs.{
  run_execution-Row, run_execution-other, run_execution-DatesUnique, found_execution, none_failed,
}

success_status : (s : CronStatus) → is_success s ≡ true → s ≡ cron_success
success_status cron_success h = refl
success_status cron_failed h = cc h
success_status cron_partial h = cc h
success_status cron_processing h = cc h
success_status cron_failed_permanent h = cc h

no_failed : (failed total : ℕ) → failed ≡ 0 → final_status failed total ≡ cron_success
no_failed failed total h = rw h

few : (n : ℕ) → n < max_date_retries → leb max_date_retries n ≡ false
few n h = ground arith

module _ (P : Prisma) (calendar : Calendar) where
  -- The date has an execution with status SUCCESS.
  abbrev pub IsDone : ℕ → World P → Type 0
  IsDone date w =
      (id : ℕ) × (r : MetricsCronExecution) × (P.find_unique w.cron_executions id ≡ some r)
      × (r.execution_date ≡ date)
      × (r.status ≡ cron_success)

  -- With unique dates the limit on retries is never reached.
  pub process_cases :
      (run : CronRun) (target : ℕ) (w : World P)
      → DatesUnique P calendar w.cron_executions
      → (process_metrics_for_date P calendar run target w
          ≡ run_execution P calendar run (calendar.start_of_day target) w)
        ⊎ ((process_metrics_for_date P calendar run target w ≡ w)
            × IsDone (calendar.start_of_day target) w)
  unfolding process_metrics_for_date
  process_cases run target w unique =
      let date : ℕ = calendar.start_of_day target in
      elim (Option-cases (find_execution P calendar date w)) [
        | inl absent ↦ inl (rw absent)
        | inr (e, found) ↦ elim (Bool-cases (is_success e.1.status)) [
          | inl done ↦
              let (there, on) = found_execution P calendar run date w e found in
              inr (rw (found, done), (e.0, e.1, there, on, success_status e.1.status done))
          | inr other ↦ inl (
              rw (
                found,
                other,
                few (retry_count P calendar date w) (retry_count-lt P calendar date w unique),
              ))
        ]
      ]

  module _ (run : CronRun) (fine : NoOutage P calendar run) where
    process-IsDone :
        (target : ℕ) (w : World P)
        → DatesUnique P calendar w.cron_executions
        → IsDone (calendar.start_of_day target) (process_metrics_for_date P calendar run target w)
    process-IsDone target w unique = elim (process_cases run target w unique) [
      | inr (same, done) ↦ rw same done
      | inl ran ↦
          let date : ℕ = calendar.start_of_day target in
          let (id, r, there, on, status, processed, total) =
            run_execution-Row P calendar run date w fine.0 in
          rw ran (
            id,
            r,
            there,
            on,
            status ∙ no_failed _ r.stores_total (none_failed P calendar run date w fine),
          )
    ]

    process_DatesUnique :
        (target : ℕ) (w : World P)
        → DatesUnique P calendar w.cron_executions
        → DatesUnique P calendar (process_metrics_for_date P calendar run target w).cron_executions
    process_DatesUnique target w unique = elim (process_cases run target w unique) [
      | inr (same, done) ↦ rw same unique
      | inl ran ↦
          rw ran (
            run_execution-DatesUnique P calendar run (calendar.start_of_day target) w fine.0 unique)
    ]

    -- A date that is done stays done, whatever date is processed.
    process_keeps_IsDone :
        (target : ℕ) (w : World P) (date : ℕ)
        → DatesUnique P calendar w.cron_executions
        → IsDone date w
        → IsDone date (process_metrics_for_date P calendar run target w)
    process_keeps_IsDone target w date unique (id, r, there, on, status) =
        elim (Bool-cases (date == calendar.start_of_day target)) [
          | inl same ↦
              subst (λ d. IsDone d (process_metrics_for_date P calendar run target w))
                (sym (==→eq date (calendar.start_of_day target) same))
                (process-IsDone target w unique)
          | inr apart ↦ elim (process_cases run target w unique) [
            | inr (same, done) ↦ rw same (id, r, there, on, status)
            | inl ran ↦ rw ran (
              id,
              r,
              run_execution-other P calendar run (calendar.start_of_day target) w id r fine.0 there
                  (differs r.execution_date date (calendar.start_of_day target) on apart),
              on,
              status,
            )
          ]
        ]
      where
        differs : (a b c : ℕ) → a ≡ b → (b == c) ≡ false → a ≢ c
        differs a b c e apart = ground arith

    days-IsDone :
        (ds : List ℕ) (w : World P) (date : ℕ)
        → DatesUnique P calendar w.cron_executions
        → All (λ d. calendar.start_of_day d ≡ d) ds
        → (any (λ d. d == date) ds ≡ true) ⊎ IsDone date w
        → IsDone date (process_days P calendar run ds w)
    unfolding process_days
    days-IsDone [] w date unique midnights (inl h) = cc h
    days-IsDone [] w date unique midnights (inr done) = done
    days-IsDone (d ∷ ds) w date unique midnights (inr done) =
        days-IsDone ds (process_metrics_for_date P calendar run d w) date
          (process_DatesUnique d w unique) midnights.1
          (inr (process_keeps_IsDone d w date unique done))
    days-IsDone (d ∷ ds) w date unique midnights (inl h) = elim (Bool-cases (d == date)) [
      | inl here ↦
          days-IsDone ds (process_metrics_for_date P calendar run d w) date
            (process_DatesUnique d w unique) midnights.1
            (inr (
              subst (λ x. IsDone x (process_metrics_for_date P calendar run d w))
                (midnights.0 ∙ ==→eq d date here) (process-IsDone d w unique)))
      | inr other ↦
          days-IsDone ds (process_metrics_for_date P calendar run d w) date
            (process_DatesUnique d w unique) midnights.1 (inl (rw other at h))
    ]

    days_DatesUnique :
        (ds : List ℕ) (w : World P)
        → DatesUnique P calendar w.cron_executions
        → DatesUnique P calendar (process_days P calendar run ds w).cron_executions
    unfolding process_days
    days_DatesUnique [] w unique = unique
    days_DatesUnique (d ∷ ds) w unique =
        days_DatesUnique ds (process_metrics_for_date P calendar run d w)
          (process_DatesUnique d w unique)

  any_row :
      (rows : List (ℕ × MetricsCronExecution)) (date : ℕ)
      → any (λ (e : ℕ × MetricsCronExecution). e.1.execution_date == date) rows ≡ true
      → (id : ℕ) × (r : MetricsCronExecution) × HasRow id r rows × (r.execution_date ≡ date)
  any_row [] date h = cc h
  any_row ((i, r) ∷ rows) date h = elim (Bool-cases (r.execution_date == date)) [
    | inl here ↦ (i, r, inl (refl, refl), ==→eq r.execution_date date here)
    | inr other ↦ let (id, s, m, on) = any_row rows date (rw other at h) in (id, s, inr m, on)
  ]

  last : (a b c : Bool) → (a && (b && c)) ≡ true → c ≡ true
  last true true c h = h
  last true false c h = cc h
  last false b c h = cc h

  processed-IsDone :
      (now date : ℕ) (w : World P) → is_processed P calendar now w date ≡ true → IsDone date w
  processed-IsDone now date w h =
      let test : MetricsCronExecution → Bool = λ r.
        leb (five_days_ago P calendar now) r.execution_date
        && (ltb r.execution_date now && is_success r.status) in
      let (id, r, m, on) = any_row (P.find_many w.cron_executions test) date h in
      let (there, passed) = P.find_many_sound w.cron_executions test id r m in
      (id, r, there, on, success_status r.status (last _ _ _ passed))

  -- Where the executions' dates are unique and the database answers, the daily cron leaves every
  -- midnight before the present, from the one of five days ago on, with a successful execution. That
  -- includes the midnight of the day that has only begun. The premise on the calendar is that days of
  -- 24 hours lead from midnight to midnight.
  pub process_daily_metrics-IsDone :
      (run : CronRun) (w : World P) (k : ℕ)
      → DatesUnique P calendar w.cron_executions
      → run.stores_error ≡ none
      → ((id : ℕ) → run.store_error id ≡ none)
      → ((n : ℕ)
          → calendar.start_of_day (five_days_ago P calendar run.now + n * day_ms)
            ≡ five_days_ago P calendar run.now + n * day_ms)
      → five_days_ago P calendar run.now + k * day_ms < run.now
      → IsDone
          (five_days_ago P calendar run.now + k * day_ms)
          (process_daily_metrics P calendar run w)
  unfolding process_daily_metrics check_and_recover_missing_days
  process_daily_metrics-IsDone run w k unique fine stores midnights before =
      let start : ℕ = five_days_ago P calendar run.now in
      let d : ℕ = start + k * day_ms in
      let p : ℕ → Bool = is_processed P calendar run.now w in
      let ds : List ℕ = missing_days P calendar p (suc run.now) start run.now in
      let missing_or_done : (any (λ x. x == d) ds ≡ true) ⊎ IsDone d w = elim (Bool-cases (p d)) [
        | inl done ↦ inr (processed-IsDone run.now d w done)
        | inr missing ↦ inl (
            missing_days_complete P calendar p (suc run.now) start run.now k d refl (omega arith)
              before missing)
      ] in
      process_keeps_IsDone run (fine, stores) (calendar.start_of_day (run.now - day_ms))
        (process_days P calendar run ds w) d (days_DatesUnique run (fine, stores) ds w unique)
        (days-IsDone run (fine, stores) ds w d unique
          (missing_days-midnights P calendar p (suc run.now) start run.now midnights)
          missing_or_done)
