-- ===== src/Cron.antt =====
-- `MetricsCronService` of src/metrics/metrics-cron.service.ts. A date is the instant of its local
-- midnight, and days have 24 hours: the server's zone has no daylight saving. What fails is the
-- database: `CronRun` says at which first calls, for the list of stores and for each store.
pub mod Laws
pub mod Runs
pub mod Days
pub mod Recovery
pub mod Outcome
use recharge_plataform_api.Prelude.{
  ℕ, zero, suc, ◌+◌, ◌-◌, ◌*◌, Bool, true, false, ◌&&◌, ◌||◌, not, Option, none, some, List, [],
  ◌∷◌, ◌==◌, leb, ltb, length, any, head?, if◌then◌else◌,
}
use recharge_plataform_api.Prisma.{Prisma}
use recharge_plataform_api.Utils.Calendar.{Calendar}
use recharge_plataform_api.Schema.{
  Store, MetricsCronExecution, CronStatus, cron_success, cron_failed, cron_partial, cron_processing,
  cron_failed_permanent,
}
use recharge_plataform_api.Database.{World, Error, on_option}
use recharge_plataform_api.Metrics.{recalculate_store_metrics}

-- The clock at the start and the end of a run, the instant before which unpaid orders expire, and
-- the errors of the database.
pub record CronRun : Type 0 where
  pub now : ℕ
  pub finished : ℕ
  pub hours : ℕ
  pub stores_error : Option Error
  pub store_error : ℕ → Option Error

-- 'OK', 'WARNING' and 'ERROR'
pub data CronHealth : Type 0 where
  health_ok health_warning health_error : CronHealth

abbrev pub max_date_retries : ℕ
max_date_retries = 3

abbrev pub day_ms : ℕ
day_ms = 24 * 60 * 60 * 1000

abbrev pub is_success : CronStatus → Bool
is_success cron_success = true
is_success s = false

-- `in: ['FAILED', 'PARTIAL']`
abbrev pub is_retryable : CronStatus → Bool
is_retryable cron_failed = true
is_retryable cron_partial = true
is_retryable s = false

abbrev pub is_permanent : CronStatus → Bool
is_permanent cron_failed_permanent = true
is_permanent s = false

abbrev pub final_status : ℕ → ℕ → CronStatus
final_status failed total =
    if failed == 0 then cron_success else if failed == total then cron_failed else cron_partial

abbrev pub is_some : {A : Type 0} → Option A → Bool
is_some none = false
is_some (some a) = true

abbrev pub on_date : ℕ → MetricsCronExecution → Bool
on_date date r = r.execution_date == date

abbrev pub as_permanent : ℕ → MetricsCronExecution → MetricsCronExecution
as_permanent now r = record r { status = cron_failed_permanent; completed_at = some now }

-- The two sides of the upsert that starts a run.
abbrev pub new_execution : ℕ → ℕ → MetricsCronExecution
new_execution date now = record {
  execution_date = date;
  status = cron_processing;
  started_at = now;
  completed_at = none;
  stores_processed = 0;
  stores_total = 0;
  execution_time = none;
}

abbrev pub as_processing : ℕ → MetricsCronExecution → MetricsCronExecution
as_processing now r = record r { status = cron_processing; started_at = now; stores_processed = 0 }

abbrev pub as_finished : CronRun → CronStatus → ℕ → ℕ → MetricsCronExecution → MetricsCronExecution
as_finished run status processed total r = record r {
  status = status;
  completed_at = some run.finished;
  stores_processed = processed;
  stores_total = total;
  execution_time = some (run.finished - run.now);
}

abbrev pub as_failed_execution : ℕ → MetricsCronExecution → MetricsCronExecution
as_failed_execution now r = record r { status = cron_failed; completed_at = some now }

module _ (P : Prisma) (calendar : Calendar) where
  -- `findUnique({ where: { executionDate } })`
  abbrev pub find_execution : ℕ → World P → Option (ℕ × MetricsCronExecution)
  find_execution date w = head? (P.find_many w.cron_executions (on_date date))

  unfoldable pub retry_count : ℕ → World P → ℕ
  retry_count date w =
      length (P.find_many w.cron_executions (λ r. on_date date r && is_retryable r.status))

  -- `upsert` by the date, with the id of the row.
  abbrev pub upsert_execution :
      ℕ
      → MetricsCronExecution
      → (MetricsCronExecution → MetricsCronExecution)
      → World P
      → ℕ × World P
  upsert_execution date new f w =
      on_option
        (let (id, t) = P.create w.cron_executions new in (id, record w { cron_executions = t }))
        (λ e. (e.0, record w { cron_executions = P.update w.cron_executions e.0 f }))
        (find_execution date w)

  -- One store after the other; the numbers of stores that were processed and that failed.
  unfoldable pub process_stores : CronRun → ℕ → List (ℕ × Store) → World P → ℕ × ℕ × World P
  process_stores run date [] w = (0, 0, w)
  process_stores run date ((id, s) ∷ stores) w =
      let lost : Bool = is_some (run.store_error id) in
      let (processed, failed, w') =
        process_stores run date stores
          (if lost then w else recalculate_store_metrics P calendar id date run.now run.hours w) in
      (if lost then processed else processed + 1, if lost then failed + 1 else failed, w')

  -- The `try` block from the list of stores on, for the execution `id`.
  abbrev pub process_all : CronRun → ℕ → ℕ → World P → World P
  process_all run date id w =
      let stores : List (ℕ × Store) = P.find_many w.stores (λ s. true) in
      let (processed, failed, w') = process_stores run date stores w in
      record w' {
        cron_executions =
            P.update w'.cron_executions id
              (as_finished run (final_status failed (length stores)) processed (length stores));
      }

  -- The `catch` block.
  abbrev pub record_failure : CronRun → ℕ → World P → World P
  record_failure run date w =
      (upsert_execution date (as_failed_execution run.finished (new_execution date run.finished))
        (as_failed_execution run.finished) w).1

  abbrev pub run_execution : CronRun → ℕ → World P → World P
  run_execution run date w =
      let (id, started) =
        upsert_execution date (new_execution date run.now) (as_processing run.now) w in
      on_option (process_all run date id started) (λ e. record_failure run date started)
        run.stores_error

  unfoldable pub process_metrics_for_date : CronRun → ℕ → World P → World P
  process_metrics_for_date run target w =
      let date : ℕ = calendar.start_of_day target in
      on_option (run_execution run date w)
        (λ e.
          if is_success e.1.status
          then w
          else if leb max_date_retries (retry_count date w)
          then record w { cron_executions = P.update w.cron_executions e.0 (as_permanent run.now) }
          else run_execution run date w)
        (find_execution date w)

  -- `while (currentDate < now)`: at least a millisecond passes in a round, so that as many rounds as
  -- the instant has are enough.
  unfoldable pub missing_days : (ℕ → Bool) → ℕ → ℕ → ℕ → List ℕ
  missing_days is_processed zero current now = []
  missing_days is_processed (suc fuel) current now =
      let rest = missing_days is_processed fuel (current + day_ms) now in
      if ltb current now then if is_processed current then rest else current ∷ rest else []

  -- `for (const missingDate of missingDays)`
  unfoldable pub process_days : CronRun → List ℕ → World P → World P
  process_days run [] w = w
  process_days run (d ∷ ds) w = process_days run ds (process_metrics_for_date run d w)

  abbrev pub five_days_ago : ℕ → ℕ
  five_days_ago now = calendar.start_of_day (now - 5 * day_ms)

  -- `processedDates.has`, over the successful executions since five days ago
  abbrev pub is_processed : ℕ → World P → ℕ → Bool
  is_processed now w date =
      any (λ (e : ℕ × MetricsCronExecution). e.1.execution_date == date)
        (P.find_many w.cron_executions (λ r.
          leb (five_days_ago now) r.execution_date
          && (ltb r.execution_date now && is_success r.status)))

  unfoldable pub check_and_recover_missing_days : CronRun → World P → World P
  check_and_recover_missing_days run w =
      process_days run
        (missing_days (is_processed run.now w) (suc run.now) (five_days_ago run.now) run.now) w

  unfoldable pub process_daily_metrics : CronRun → World P → World P
  process_daily_metrics run w =
      process_metrics_for_date run (calendar.start_of_day (run.now - day_ms))
        (check_and_recover_missing_days run w)

  unfoldable pub update_execution_status_to_success : ℕ → ℕ → World P → World P
  update_execution_status_to_success date now w = record w {
    cron_executions =
        P.update_many w.cron_executions
          (λ id r. on_date date r && (is_retryable r.status || is_permanent r.status))
          (λ r. record r { status = cron_success; completed_at = some now });
  }

  -- The executions of a month.
  abbrev pub of_month : ℕ → ℕ → MetricsCronExecution → Bool
  of_month year month r =
      leb (calendar.start_of_month year month) r.execution_date
      && leb r.execution_date (calendar.end_of_month year month)

  unfoldable pub get_cron_health_status : ℕ → ℕ → World P → CronHealth
  get_cron_health_status year month w =
      let executions = P.find_many w.cron_executions (of_month year month) in
      if length executions == 0
      then health_ok
      else if any (λ (e : ℕ × MetricsCronExecution). is_permanent e.1.status) executions
      then health_error
      else if any (λ (e : ℕ × MetricsCronExecution). is_retryable e.1.status) executions
      then health_warning
      else health_ok
