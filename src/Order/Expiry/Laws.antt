-- ===== src/Order/Expiry/Laws.antt =====
-- Which orders expire, and that expiring is done once.
use recharge_plataform_api.Prelude.{
  ℕ, ◌+◌, ◌*◌, ◌≤◌, ◌≡◌, ◌≢◌, ◌⊎◌, refl, Bool, true, false, Option, some, List, arith, inl, inr, [],
  ◌∷◌, length, keep, HasRow,
}
use recharge_plataform_api.Prisma.{Prisma}
use recharge_plataform_api.Utils.Calendar.{Calendar}
use recharge_plataform_api.Schema.{Order, created, Payment, payment_pending}
use recharge_plataform_api.Database.{World}
use recharge_plataform_api.Order.Expiry.{expires, as_expired, check_and_expire_orders}

keep_none :
    {R : Type 0} (rows : List (ℕ × R)) (test : ℕ → R → Bool)
    → ((i : ℕ) (r : R) → HasRow i r rows → test i r ≡ false)
    → length (keep (λ e. test e.0 e.1) rows) ≡ 0
keep_none [] test h = refl
keep_none ((i, r) ∷ rows) test h =
    rw (h i r (inl (refl, refl))) (keep_none rows test (λ j s m. h j s (inr m)))

module _ (P : Prisma) (calendar : Calendar) where
  module _ (store : Option ℕ) (ids : List ℕ) (max_date : Option ℕ) (now hours : ℕ)
      (w : World P) where
    abbrev after : World P
    after = (check_and_expire_orders P calendar store ids max_date now hours w).1

    -- Whatever the filters: an order that is not CREATED, whose payment is not pending, or that is
    -- younger than the configured hours, is left as it is.
    pub check_and_expire_keeps :
        (id : ℕ) (o : Order) (p : Payment)
        → P.find_unique w.orders id ≡ some o
        → P.find_unique w.payments o.payment_id ≡ some p
        → (o.order_status ≢ created)
          ⊎ (p.status ≢ payment_pending)
          ⊎ (now ≤ o.created_at + hours * 60 * 60 * 1000)
        → P.find_unique after.orders id ≡ some o
    unfolding check_and_expire_orders
    check_and_expire_keeps id o p found paid h = ground (
      arith,
      P.find-update_many w.orders (expires P calendar store ids max_date now hours w) as_expired id,
    )

    no_longer :
        (id : ℕ) (o : Order)
        → P.find_unique after.orders id ≡ some o
        → expires P calendar store ids max_date now hours after id o ≡ false
    unfolding check_and_expire_orders
    no_longer id o found = ground (
      arith,
      P.find-update_many w.orders (expires P calendar store ids max_date now hours w) as_expired id,
    )

    -- Expiring again at the same instant expires nothing.
    pub check_and_expire_again :
        (check_and_expire_orders P calendar store ids max_date now hours after).0 ≡ 0
    unfolding check_and_expire_orders
    check_and_expire_again =
        keep_none (P.find_many after.orders (λ _. true))
          (λ i o. expires P calendar store ids max_date now hours after i o)
          (λ i o h. no_longer i o (P.find_many_sound after.orders (λ _. true) i o h).0)
