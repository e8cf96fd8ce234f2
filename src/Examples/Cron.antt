-- ===== src/Examples/Cron.antt =====
-- Examples of the metrics cron.
use recharge_plataform_api.Prelude.{
  ℕ, zero, suc, ◌+◌, ◌*◌, ◌<◌, ◌≡◌, ◌⊎◌, refl, arith, not, all, count_if, none, some, [], ◌∷◌, List,
  length,
}
use recharge_plataform_api.Prelude.Text.{codes}
use recharge_plataform_api.Prisma.Memory.{memory, row}
use recharge_plataform_api.Schema.{Store, MetricsCronExecution, cron_failed}
use recharge_plataform_api.Database.{World, js_error}
use recharge_plataform_api.Cron.{
  max_date_retries, CronRun, day_ms, retry_count, new_execution, process_daily_metrics,
  process_metrics_for_date, is_success,
}
use recharge_plataform_api.Cron.Laws.{DatesUnique, retry_count-lt}
use recharge_plataform_api.Cron.Recovery.{IsDone, process_daily_metrics-IsDone}
use recharge_plataform_api.Cron.Outcome.{is_lost, process_outcome}
use recharge_plataform_api.Examples.Data.{shop, calendar, only_row}

-- The sixth day after the epoch and eight hours; the database fails for no store.
abbrev run : CronRun
run = record {
  now = 547200000;
  finished = 547200500;
  hours = 540000000;
  stores_error = none;
  store_error = λ id. none;
}

-- It fails for one of two stores.
abbrev partial_run : CronRun
partial_run = record run {
  store_error = λ id. elim id [ zero ↦ none | suc k ↦ some (js_error (codes "down")) ];
}

abbrev execution : MetricsCronExecution
execution = record (new_execution 432000000 432000001) { status = cron_failed }

abbrev store : Store
store = record { name = codes "S"; email = none; domain = codes "s.com"; bravive_api_token = none }

abbrev mall : World memory
mall = record shop { stores = some store ∷ some store ∷ []; cron_executions = some execution ∷ [] }

mall_unique : DatesUnique memory calendar mall.cron_executions
mall_unique i j r s at_i at_j same =
    ground (arith, only_row execution i r at_i, only_row execution j s at_j)

retry_count-lt_example : retry_count memory calendar 432000000 mall < max_date_retries
retry_count-lt_example = retry_count-lt memory calendar 432000000 mall mall_unique

midnights : (n : ℕ) → calendar.start_of_day (86400000 + n * day_ms) ≡ 86400000 + n * day_ms
midnights n = omega arith

process_daily_metrics-IsDone_example :
    IsDone memory calendar (86400000 + 5 * day_ms) (process_daily_metrics memory calendar run mall)
process_daily_metrics-IsDone_example =
    process_daily_metrics-IsDone memory calendar run mall 5 mall_unique refl (λ id. refl) midnights
      (omega arith)

process_outcome_example :
    let w' : World memory = process_metrics_for_date memory calendar partial_run 432000000 mall in
    let stores : List (ℕ × Store) = (0, store) ∷ (1, store) ∷ [] in
    ((w' ≡ mall) × IsDone memory calendar 432000000 mall)
    ⊎ ((id : ℕ) × (r : MetricsCronExecution) × (row w'.cron_executions id ≡ some r)
        × (r.execution_date ≡ 432000000)
        × (r.stores_total ≡ length stores)
        × (r.stores_processed + count_if (is_lost partial_run) stores ≡ r.stores_total)
        × (is_success r.status ≡ all (λ s. not (is_lost partial_run s)) stores))
process_outcome_example =
    process_outcome memory calendar partial_run 432000000 mall mall_unique refl
