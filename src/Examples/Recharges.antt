-- ===== src/Examples/Recharges.antt =====
-- Examples of retries and of error messages.
use recharge_plataform_api.Prelude.{◌≡◌, ◌⊎◌, ◌<◌, refl, arith, none, some, [], ◌∷◌, ◌++◌}
use recharge_plataform_api.Prelude.Text.{codes}
use recharge_plataform_api.Prisma.Memory.{memory}
use recharge_plataform_api.Schema.{retry_pending, failed}
use recharge_plataform_api.Bigo.Message.{extract_rescode_from_error, get_bigo_error_message}
use recharge_plataform_api.Bigo.Message.RoundTrip.{
  HasNoParen, extract_rescode-get_bigo_error_message,
}
use recharge_plataform_api.Bigo.Retry.{process_specific_retry}
use recharge_plataform_api.Bigo.Retry.Outcome.{
  IsSettled, Waits, status_of, process_specific_retry_outcome,
}
use recharge_plataform_api.Bigo.Retry.Termination.{run_retries, run_retries_settle}
use recharge_plataform_api.Bigo.Retry.Disable.{disable_retry_fails}
use recharge_plataform_api.Examples.Data.{shop, sent, answering, limited}

process_specific_retry_outcome_example :
    let w' = (process_specific_retry memory 0 1 (codes "s4") limited 95000000 shop).1 in
    (IsSettled memory 0 w' × (w'.timers ≡ shop.timers))
    ⊎ ((1 < 3) × Waits memory 0 2 sent shop.timers w')
process_specific_retry_outcome_example =
    process_specific_retry_outcome memory 0 1 (codes "s4") limited 95000000 shop refl refl
      (λ e. cc e) refl

run_retries_settle_example :
    IsSettled memory 0
      (run_retries memory 0 1 (codes "s4") 95000000 (limited ∷ limited ∷ answering ∷ []) shop)
run_retries_settle_example =
    run_retries_settle memory 0 1 (codes "s4") 95000000 limited (limited ∷ answering ∷ []) shop refl
      refl (λ e. cc e) refl (omega arith)

disable_retry_fails_example :
    let w' = (process_specific_retry memory 1 1 (codes "s4") answering 95000000 shop).1 in
    (status_of memory 1 w' ≡ some retry_pending) ⊎ (status_of memory 1 w' ≡ some failed)
disable_retry_fails_example =
    disable_retry_fails memory 1 1 (codes "s4") answering 95000000 shop refl refl refl refl

no_paren : HasNoParen (codes "Network error: ")
no_paren = (
  refl,
  (
    refl,
    (
      refl,
      (
        refl,
        (refl, (refl, (refl, (refl, (refl, (refl, (refl, (refl, (refl, (refl, (refl, tt))))))))))),
      ),
    ),
  ),
)

extract_rescode-get_bigo_error_message_example :
    extract_rescode_from_error (codes "Network error: " ++ get_bigo_error_message 7212012 none)
    ≡ 7212012
extract_rescode-get_bigo_error_message_example =
    extract_rescode-get_bigo_error_message (codes "Network error: ") 7212012 none no_paren
