-- ===== src/Cron/Runs.antt =====
-- The execution of one date: its row afterwards, and the rows of the other dates.
use recharge_plataform_api.Prelude.{
  ℕ, ◌≡◌, ◌≢◌, ◌⊎◌, refl, sym, ap, subst, ◌∙◌, inl, inr, true, none, some, List, length,
  Option-cases, ==→eq, ==_self,
}
use recharge_plataform_api.Prisma.{Prisma}
use recharge_plataform_api.Utils.Calendar.{Calendar}
use recharge_plataform_api.Schema.{Store, MetricsCronExecution}
use recharge_plataform_api.Database.{World, on_option}
use recharge_plataform_api.Database.Laws.{
  head-found, head-none, row_after, find-update_self, find-update_ne, find-create_self,
  find-create_old, row_created,
}
use recharge_plataform_api.Cron.{
  CronRun, on_date, find_execution, upsert_execution, process_stores, process_all, record_failure,
  run_execution, new_execution, as_processing, as_finished, final_status,
}
use recharge_plataform_api.Cron.Laws.{
  DatesUnique, NoOutage, process_stores_keeps, process_stores_count, no_failures,
}

module _ (P : Prisma) (calendar : Calendar) (run : CronRun) (date : ℕ) where
  -- The row of the date once the run has started.
  abbrev pub started : World P → ℕ × World P
  started w =
      upsert_execution P calendar date (new_execution date run.now) (as_processing run.now) w

  abbrev pub Row : P.Table MetricsCronExecution → ℕ → MetricsCronExecution → Type 0
  Row t id r = P.find_unique t id ≡ some r

  -- The execution found by a date has that date.
  pub found_execution :
      (w : World P) (e : ℕ × MetricsCronExecution)
      → find_execution P calendar date w ≡ some e
      → Row w.cron_executions e.0 e.1 × (e.1.execution_date ≡ date)
  found_execution w e h =
      let (there, on) = head-found P w.cron_executions (on_date date) e h in
      (there, ==→eq e.1.execution_date date on)

  started-Row :
      (w : World P)
      → (r : MetricsCronExecution) × (Row (started w).1.cron_executions (started w).0 r)
        × (r.execution_date ≡ date)
  started-Row w = elim (Option-cases (find_execution P calendar date w)) [
    | inl absent ↦ rw absent (
      new_execution date run.now,
      find-create_self P w.cron_executions (new_execution date run.now),
      refl,
    )
    | inr (e, found) ↦
        let (there, on) = found_execution w e found in
        rw found (
          as_processing run.now e.1,
          find-update_self P w.cron_executions e.0 (as_processing run.now) there,
          on,
        )
  ]

  pub started_stores : (w : World P) → (started w).1.stores ≡ w.stores
  started_stores w = elim (Option-cases (find_execution P calendar date w)) [
    | inl absent ↦ rw absent
    | inr (e, found) ↦ rw found
  ]

  -- Starting a run touches no successful execution but that of the date.
  started_other :
      (w : World P) (j : ℕ) (r : MetricsCronExecution)
      → Row w.cron_executions j r
      → r.execution_date ≢ date
      → Row (started w).1.cron_executions j r × ((started w).0 ≢ j)
  started_other w j r there other = elim (Option-cases (find_execution P calendar date w)) [
    | inl absent ↦ rw absent (
      find-create_old P w.cron_executions (new_execution date run.now) j there,
      λ e. fresh_id (rw (← e) (P.create_fresh w.cron_executions (new_execution date run.now))),
    )
    | inr (e, found) ↦
        let (at, on) = found_execution w e found in
        let apart : e.0 ≢ j =
          λ same. other (ap (λ x. x.execution_date) (same_row e same at) ∙ on) in
        rw found
          (find-update_ne P w.cron_executions e.0 (as_processing run.now) j apart ∙ there, apart)
  ]
    where
      fresh_id : P.find_unique w.cron_executions j ≡ none → ⊥
      fresh_id gone = cc there

      same_row : (e : ℕ × MetricsCronExecution) → e.0 ≡ j → Row w.cron_executions e.0 e.1 → r ≡ e.1
      same_row e same at = cc there

  -- A change of a row that keeps its date keeps the dates unique.
  update-DatesUnique :
      (t : P.Table MetricsCronExecution) (id : ℕ) (f : MetricsCronExecution → MetricsCronExecution)
      → ((r : MetricsCronExecution) → (f r).execution_date ≡ r.execution_date)
      → DatesUnique P calendar t
      → DatesUnique P calendar (P.update t id f)
  update-DatesUnique t id f keeps unique i j r s at_i at_j same =
      let (a, there_a, ea) = before i r (row_after P t id f i r at_i) in
      let (b, there_b, eb) = before j s (row_after P t id f j s at_j) in
      unique i j a b there_a there_b (ea ∙ same ∙ sym eb)
    where
      before :
          (k : ℕ) (q : MetricsCronExecution)
          → ((k ≡ id) × ((o : MetricsCronExecution) × Row t id o × (q ≡ f o))) ⊎ Row t k q
          → (o : MetricsCronExecution) × Row t k o × (o.execution_date ≡ q.execution_date)
      before k q (inl (here, (o, there, e))) =
          (o, rw here there, sym (ap (λ x. x.execution_date) e ∙ keeps o))
      before k q (inr old) = (q, old, refl)

  started-DatesUnique :
      (w : World P)
      → DatesUnique P calendar w.cron_executions
      → DatesUnique P calendar (started w).1.cron_executions
  started-DatesUnique w unique = elim (Option-cases (find_execution P calendar date w)) [
    | inr (e, found) ↦
        rw found
          (update-DatesUnique w.cron_executions e.0 (as_processing run.now) (λ r. refl) unique)
    | inl absent ↦ rw absent (λ i j r s at_i at_j same.
        created i j r s (row_created P w.cron_executions new i r at_i)
          (row_created P w.cron_executions new j s at_j) absent same)
  ]
    where
      new : MetricsCronExecution
      new = new_execution date run.now

      on_it : (r : MetricsCronExecution) → r.execution_date ≡ date → on_date date r ≡ true
      on_it r e = rw e (==_self date)

      created :
          (i j : ℕ) (r s : MetricsCronExecution)
          → ((i ≡ (P.create w.cron_executions new).0) × (r ≡ new)) ⊎ Row w.cron_executions i r
          → ((j ≡ (P.create w.cron_executions new).0) × (s ≡ new)) ⊎ Row w.cron_executions j s
          → find_execution P calendar date w ≡ none
          → r.execution_date ≡ s.execution_date
          → i ≡ j
      created i j r s (inl (here, er)) (inl (here', es)) absent same = here ∙ sym here'
      created i j r s (inl (here, er)) (inr old) absent same = absurd (
          head-none P w.cron_executions (on_date date) j s absent old
            (on_it s (sym same ∙ ap (λ x. x.execution_date) er)))
      created i j r s (inr old) (inl (here, es)) absent same = absurd (
          head-none P w.cron_executions (on_date date) i r absent old
            (on_it r (same ∙ ap (λ x. x.execution_date) es)))
      created i j r s (inr old) (inr old') absent same = unique i j r s old old' same

  -- The stores that a run goes through.
  abbrev pub stores_of : World P → List (ℕ × Store)
  stores_of w = P.find_many w.stores (λ s. true)

  abbrev pub processed_stores : World P → ℕ × ℕ × World P
  processed_stores w = process_stores P calendar run date (stores_of (started w).1) (started w).1

  -- The table after a run whose list of stores was read.
  run_execution-table :
      (w : World P)
      → run.stores_error ≡ none
      → (run_execution P calendar run date w).cron_executions
        ≡ P.update (started w).1.cron_executions (started w).0 (
            as_finished run
              (final_status (processed_stores w).1 (length (stores_of (started w).1)))
              (processed_stores w).0
              (length (stores_of (started w).1)))
  run_execution-table w fine =
      ap
        (λ o.
          (on_option (process_all P calendar run date (started w).0 (started w).1)
            (λ e. record_failure P calendar run date (started w).1) o).cron_executions)
        fine
      ∙ ap
          (λ t. P.update t (started w).0 (
            as_finished run (final_status (processed_stores w).1 (length (stores_of (started w).1)))
              (processed_stores w).0 (length (stores_of (started w).1))))
          (process_stores_keeps P calendar run date (stores_of (started w).1) (started w).1)

  -- The row of the date after a run whose list of stores was read.
  pub run_execution-Row :
      (w : World P)
      → run.stores_error ≡ none
      → (id : ℕ) × (r : MetricsCronExecution) × Row
          (run_execution P calendar run date w).cron_executions
          id
          r
        × (r.execution_date ≡ date)
        × (r.status ≡ final_status (processed_stores w).1 r.stores_total)
        × (r.stores_processed ≡ (processed_stores w).0)
        × (r.stores_total ≡ length (stores_of (started w).1))
  run_execution-Row w fine =
      let (r, there, on) = started-Row w in
      let f : MetricsCronExecution → MetricsCronExecution =
        as_finished run (final_status (processed_stores w).1 (length (stores_of (started w).1)))
          (processed_stores w).0 (length (stores_of (started w).1)) in
      (
        (started w).0,
        f r,
        ap (λ t. P.find_unique t (started w).0) (run_execution-table w fine)
            ∙ find-update_self P (started w).1.cron_executions (started w).0 f there,
        on,
        refl,
        refl,
        refl,
      )

  -- The rows of other dates stay.
  pub run_execution-other :
      (w : World P) (j : ℕ) (r : MetricsCronExecution)
      → run.stores_error ≡ none
      → Row w.cron_executions j r
      → r.execution_date ≢ date
      → Row (run_execution P calendar run date w).cron_executions j r
  run_execution-other w j r fine there other =
      let (still, apart) = started_other w j r there other in
      ap (λ t. P.find_unique t j) (run_execution-table w fine)
      ∙ find-update_ne P (started w).1.cron_executions (started w).0 _ j apart
      ∙ still

  pub run_execution-DatesUnique :
      (w : World P)
      → run.stores_error ≡ none
      → DatesUnique P calendar w.cron_executions
      → DatesUnique P calendar (run_execution P calendar run date w).cron_executions
  run_execution-DatesUnique w fine unique =
      subst (DatesUnique P calendar) (sym (run_execution-table w fine)) (
        update-DatesUnique (started w).1.cron_executions (started w).0 _ (λ r. refl)
          (started-DatesUnique w unique))

  pub none_failed : (w : World P) → NoOutage P calendar run → (processed_stores w).1 ≡ 0
  none_failed w fine =
      (process_stores_count P calendar run date (stores_of (started w).1) (started w).1).0
      ∙ no_failures P calendar run (stores_of (started w).1) fine.1
