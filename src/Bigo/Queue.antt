-- ===== src/Bigo/Queue.antt =====
-- The retry queue of `bigo-retry.service.ts`: which errors are retried, after what delay, and how a
-- recharge enters the queue or is marked as failed.
use recharge_plataform_api.Prelude.{
  ℕ, zero, suc, ◌+◌, ◌*◌, Bool, false, ◌||◌, Option, none, some, List, [], ◌∷◌, ◌++◌, ◌==◌, ltb,
  min, not, if◌then◌else◌, get_elem?, keep,
}
use recharge_plataform_api.Prelude.Text.{Text, codes, to_decimal}
use recharge_plataform_api.Prisma.{Prisma}
use recharge_plataform_api.Schema.{BigoRecharge, retry_pending, failed}
use recharge_plataform_api.Database.{World, Action, ok, ◌>>◌, on_option, update_bigo_recharge}

abbrev pub max_retries : ℕ
max_retries = 3

abbrev pub retry_delays : List ℕ
retry_delays = 3 ∷ 13 ∷ 28 ∷ []

unfoldable pub should_retry : ℕ → Bool
should_retry rescode = rescode == 7212012 || rescode == 500001

-- `x || d` of a number that may be undefined
abbrev or_default : Option ℕ → ℕ → ℕ
or_default none d = d
or_default (some zero) d = d
or_default (some (suc n)) d = suc n

-- `this.retryDelays[attempt - 1] || 30`; at attempt 0 the index is -1.
standard_delay : ℕ → ℕ
standard_delay zero = 30
standard_delay (suc i) = or_default (get_elem? retry_delays i) 30

-- In minutes.
unfoldable pub get_retry_delay : ℕ → ℕ → ℕ
unfolding standard_delay
get_retry_delay rescode attempt =
    if rescode == 7212012 then min (30 * attempt) 120 else standard_delay attempt

-- `Map.set` and `Map.delete`
abbrev pub delete_key : ℕ → List (ℕ × ℕ) → List (ℕ × ℕ)
delete_key k m = keep (λ e. not (e.0 == k)) m

abbrev pub set_key : ℕ → ℕ → List (ℕ × ℕ) → List (ℕ × ℕ)
set_key k v m = delete_key k m ++ (k, v) ∷ []

-- The handle is a value of the map.
abbrev is_handle : ℕ → List (ℕ × ℕ) → Bool
is_handle h [] = false
is_handle h ((k, v) ∷ m) = h == v || is_handle h m

abbrev pub as_failed : Text → BigoRecharge → BigoRecharge
as_failed message r = record r { status = failed; message = some message; next_retry = none }

abbrev pub as_retry_pending : ℕ → ℕ → ℕ → Text → BigoRecharge → BigoRecharge
as_retry_pending next_retry attempt rescode error_message r = record r {
  status = retry_pending;
  next_retry = some next_retry;
  attempts = attempt;
  rescode = some rescode;
  message = some error_message;
}

module _ (P : Prisma) where
  unfoldable pub mark_as_failed : ℕ → Text → Action (World P) (Unit {0})
  mark_as_failed recharge_id message = update_bigo_recharge P recharge_id (as_failed message)

  -- `setTimeout(() => this.processSpecificRetry(...))`, remembered in `retryTimeouts`
  unfoldable pub schedule_retry : ℕ → ℕ → ℕ → Action (World P) (Unit {0})
  schedule_retry recharge_id attempt delay_ms w = (
    ok tt,
    record w {
      timers =
          record {
            handle = w.next_handle;
            recharge_id = recharge_id;
            attempt = attempt;
            delay_ms = delay_ms;
          }
          ∷ w.timers;
      next_handle = suc w.next_handle;
      retry_timeouts = set_key recharge_id w.next_handle w.retry_timeouts;
    },
  )

  -- The part of `addToRetryQueue` from `prisma.bigoRecharge.findUnique` on.
  unfoldable pub enqueue : ℕ → ℕ → Text → ℕ → ℕ → Action (World P) (Unit {0})
  unfolding schedule_retry
  enqueue recharge_id rescode error_message attempt now w =
      let delay_ms : ℕ = get_retry_delay rescode attempt * 60 * 1000 in
      on_option (ok tt, w)
        (λ _.
          (do
            update_bigo_recharge P recharge_id
                (as_retry_pending (now + delay_ms) attempt rescode error_message)
            schedule_retry recharge_id attempt delay_ms)
            w)
        (P.find_unique w.bigo_recharges recharge_id)

  unfoldable pub add_to_retry_queue : ℕ → ℕ → Text → Option ℕ → ℕ → Action (World P) (Unit {0})
  unfolding enqueue mark_as_failed should_retry
  add_to_retry_queue recharge_id rescode error_message attempt_number now =
      let current_attempt : ℕ = or_default attempt_number 1 in
      if not (should_retry rescode)
      then mark_as_failed recharge_id
          (codes "Error " ++ (to_decimal rescode ++ codes " is not retryable"))
      else if ltb max_retries current_attempt
      then mark_as_failed recharge_id
          (codes "Max retries (3) exceeded for error " ++ to_decimal rescode)
      else enqueue recharge_id rescode error_message current_attempt now

  -- `onModuleDestroy`: the timers that the map names are cleared.
  unfoldable pub on_module_destroy : World P → World P
  on_module_destroy w = record w {
    timers = keep (λ t. not (is_handle t.handle w.retry_timeouts)) w.timers;
    retry_timeouts = [];
  }
