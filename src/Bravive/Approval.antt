-- ===== src/Bravive/Approval.antt =====
-- What an approved payment does to its payment, order and recharge (`handleApprovedPayment`).
use recharge_plataform_api.Prelude.{ℕ, ◌≡◌, refl, ◌⊎◌, some}
use recharge_plataform_api.Prelude.Text.{Text}
use recharge_plataform_api.Prisma.{Prisma}
use recharge_plataform_api.Schema.{Order, Payment, Recharge, processing, completed, BigoResponse}
use recharge_plataform_api.Database.{World, Result, ok, err, continue}
use recharge_plataform_api.Bigo.Request.{make_signed_request}
use recharge_plataform_api.Metrics.{update_metrics_for_order}
use recharge_plataform_api.Bravive.Handlers.{
  Outside, as_approved, with_order_status, recharge_as_pending, recharge_as_approved,
}
use recharge_plataform_api.Bravive.Frame.{sale_rows, metrics_keep_rows}

module _ (P : Prisma) where
  -- The three rows of a sale.
  abbrev pub IsSale : ℕ → Payment → ℕ → Order → ℕ → Recharge → World P → Type 0
  IsSale payment_id p order_id o recharge_id r w =
      (P.find_unique w.payments payment_id ≡ some p)
      × (P.find_unique w.orders order_id ≡ some o)
      × (P.find_unique w.recharges recharge_id ≡ some r)

  keep-IsSale :
      (payment_id order_id recharge_id : ℕ) (p : Payment) (o : Order) (r : Recharge)
      (w w' : World P)
      → sale_rows P w' ≡ sale_rows P w
      → IsSale payment_id p order_id o recharge_id r w
      → IsSale payment_id p order_id o recharge_id r w'
  keep-IsSale payment_id order_id recharge_id p o r w w' h (paid, ordered, recharged) =
      let payments : w'.payments ≡ w.payments = λ i. (h i).0 in
      let orders : w'.orders ≡ w.orders = λ i. (h i).1 in
      let recharges : w'.recharges ≡ w.recharges = λ i. (h i).2 in
      (rw payments paid, rw orders ordered, rw recharges recharged)

  module _ (out : Outside) where
    -- The order and its recharge once the payment handler is through.
    abbrev pub AfterSending : ℕ → Payment → ℕ → Order → ℕ → Recharge → World P → Type 0
    AfterSending payment_id p order_id o recharge_id r w =
        (IsSale payment_id p order_id (with_order_status completed o) recharge_id
            (recharge_as_approved out.now r) w
          × ((response : BigoResponse) × (make_signed_request out.bigo ≡ ok response)))
        ⊎ IsSale payment_id p order_id o recharge_id r w

    after_confirm :
        (payment_id order_id recharge_id : ℕ) (p : Payment) (o : Order) (r : Recharge)
        (c : Result (Unit {0}) × World P)
        → c.0 ≡ ok tt
        → IsSale payment_id p order_id o recharge_id r c.1
        → let (res, w') =
            continue (λ _ s. (ok tt, update_metrics_for_order P out.calendar order_id s)) c in
          (res ≡ ok tt) × IsSale payment_id p order_id o recharge_id r w'
    after_confirm payment_id order_id recharge_id p o r (ok u, w) done sale = (
      refl,
      keep-IsSale payment_id order_id recharge_id p o r w
          (update_metrics_for_order P out.calendar order_id w)
          (metrics_keep_rows P out.calendar order_id w) sale,
    )
    after_confirm payment_id order_id recharge_id p o r (err e, w) done sale = cc done

    completed_rows : ℕ → ℕ → World P → World P
    completed_rows order_id recharge_id w = record w {
      orders = P.update w.orders order_id (with_order_status completed);
      recharges = P.update w.recharges recharge_id (recharge_as_approved out.now);
    }

    approved_rows : ℕ → ℕ → ℕ → World P → World P
    approved_rows payment_id order_id recharge_id w = record w {
      payments = P.update w.payments payment_id (as_approved out.now);
      orders = P.update w.orders order_id (with_order_status processing);
      recharges = P.update w.recharges recharge_id (recharge_as_pending out.now);
    }
