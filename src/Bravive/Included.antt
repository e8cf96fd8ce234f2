-- ===== src/Bravive/Included.antt =====
-- What the search of a webhook's payment has found.
use recharge_plataform_api.Prelude.{
  ℕ, ◌≡◌, ◌≢◌, refl, sym, ◌∙◌, subst, inl, inr, Bool, true, false, some, ◌==◌, head?, map_option,
  Bool-cases, Option-cases, ==→eq, arith,
}
use recharge_plataform_api.Prelude.Text.{Text}
use recharge_plataform_api.Prisma.{Prisma}
use recharge_plataform_api.Schema.{Order, Payment}
use recharge_plataform_api.Database.{World}
use recharge_plataform_api.Database.Laws.{
  head-found, find-update_self, find-update_ne, head-find_many,
}
use recharge_plataform_api.Bravive.Webhook.{Included, is_bravive_payment, find_included}

module _ (P : Prisma) where
  -- The row of a search that finds one row only, after that row was changed.
  pub head-find_many_update :
      {R : Type 0} (t : P.Table R) (test : R → Bool) (id : ℕ) (r : R) (f : R → R)
      → P.find_unique t id ≡ some r
      → test (f r) ≡ true
      → ((j : ℕ) (s : R) → P.find_unique t j ≡ some s → test s ≡ true → j ≡ id)
      → head? (P.find_many (P.update t id f) test) ≡ some (id, f r)
  head-find_many_update t test id r f found passed unique =
      head-find_many P (P.update t id f) test id (f r) (find-update_self P t id f found) passed
        (λ j s there ok. elim (Bool-cases (id == j)) [
          | inl here ↦ sym (==→eq id j here)
          | inr other ↦ unique j s (sym (find-update_ne P t id f j (differ id j other)) ∙ there) ok
        ])
    where
      differ : (a b : ℕ) → (a == b) ≡ false → a ≢ b
      differ a b h = ground arith

  -- What `find_included` has found.
  abbrev pub IsIncluded : Text → Included → World P → Type 0
  IsIncluded bravive_id i w =
      (P.find_unique w.payments i.payment_id ≡ some i.payment)
      × (is_bravive_payment P bravive_id i.payment ≡ true)
      × (P.find_unique w.orders i.order_id ≡ some i.order)
      × (i.recharge
          ≡ map_option (λ r. (i.order.recharge_id, r))
              (P.find_unique w.recharges i.order.recharge_id))

  made : ℕ × Payment → ℕ × Order → World P → Included
  made p o w = record {
    payment_id = p.0;
    payment = p.1;
    order_id = o.0;
    order = o.1;
    recharge = map_option (λ r. (o.1.recharge_id, r)) (P.find_unique w.recharges o.1.recharge_id);
  }

  pub find_included-IsIncluded :
      (bravive_id : Text) (i : Included) (w : World P)
      → find_included P bravive_id w ≡ some i
      → IsIncluded bravive_id i w
  unfolding find_included made
  find_included-IsIncluded bravive_id i w h =
      elim (Option-cases (head? (P.find_many w.payments (is_bravive_payment P bravive_id)))) [
        | inl no_payment ↦ cc (rw no_payment at h)
        | inr (p, paid) ↦
            elim (Option-cases (head? (P.find_many w.orders (λ o. o.payment_id == p.0)))) [
              | inl no_order ↦ cc (rw (paid, no_order) at h)
              | inr (o, ordered) ↦
                  let same : made p o w ≡ i = cc (rw (paid, ordered) at h) in
                  let (there, passed) =
                    head-found P w.payments (is_bravive_payment P bravive_id) p paid in
                  subst (λ k. IsIncluded bravive_id k w) same
                    (
                      there,
                      passed,
                      (head-found P w.orders (λ o. o.payment_id == p.0) o ordered).0,
                      refl,
                    )
            ]
      ]
