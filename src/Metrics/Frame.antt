-- ===== src/Metrics/Frame.antt =====
-- Recalculating the metrics writes the three sales tables of the stores only.
use recharge_plataform_api.Prelude.{ℕ, ◌≡◌, Bool-cases, inl, inr, Option-cases}
use recharge_plataform_api.Prisma.{Prisma}
use recharge_plataform_api.Utils.Calendar.{Calendar}
use recharge_plataform_api.Database.{World}
use recharge_plataform_api.Metrics.{recalculate_at, update_metrics_for_order}
use recharge_plataform_api.Metrics.Tally.{is_completed}

module _ (P : Prisma) (calendar : Calendar) {B : Type 0} (view : World P → B)
    (no_metrics : (store instant : ℕ) (w : World P)
      → view (recalculate_at P calendar store instant w) ≡ view w) where
  pub update_metrics_keeps :
      (order_id : ℕ) (w : World P) → view (update_metrics_for_order P calendar order_id w) ≡ view w
  unfolding update_metrics_for_order
  update_metrics_keeps order_id w = elim (Option-cases (P.find_unique w.orders order_id)) [
    | inl gone ↦ rw (gone, update_metrics_for_order)
    | inr (o, found) ↦ elim (Bool-cases (is_completed o.order_status)) [
      | inl done ↦ rw (found, update_metrics_for_order, done) (no_metrics o.store_id o.created_at w)
      | inr open_order ↦ rw (found, update_metrics_for_order, open_order)
    ]
  ]
