-- ===== src/Users/Cleanup.antt =====
-- `UserCleanupService` of src/user/user-cleanup.service.ts.
pub mod Laws
use recharge_plataform_api.Prelude.{
  ℕ, ◌-◌, ◌*◌, Bool, true, false, ◌&&◌, not, Option, List, [], ◌∷◌, ltb,
}
use recharge_plataform_api.Prisma.{Prisma}
use recharge_plataform_api.Utils.Calendar.{Calendar}
use recharge_plataform_api.Schema.{User, Order}
use recharge_plataform_api.Database.{World, on_option}
use recharge_plataform_api.Order.Expiry.{is_created, has_pending_payment, as_expired}

-- `emailVerified: false, emailConfirmationExpires: { lt: now }`: no date passes no test.
abbrev pub is_abandoned : ℕ → User → Bool
is_abandoned now u =
    not u.email_verified && on_option false (λ t. ltb t now) u.email_confirmation_expires

-- The `where` of `expireUnpaidOrders`.
abbrev pub is_unpaid : (P : Prisma) → Calendar → ℕ → ℕ → World P → Order → Bool
is_unpaid P calendar now hours w o =
    is_created o.order_status
    && (has_pending_payment P calendar w o.payment_id
        && ltb o.created_at (now - hours * 60 * 60 * 1000))

module _ (P : Prisma) where
  delete_found : List (ℕ × User) → ℕ → World P → World P
  delete_found [] now w = w
  delete_found (e ∷ es) now w = record w { users = P.delete_many w.users (is_abandoned now) }

  -- `deleteMany` is called where the search found a user; where it found none it would delete none.
  unfoldable pub cleanup_unverified_users : ℕ → World P → World P
  unfolding delete_found
  cleanup_unverified_users now w = delete_found (P.find_many w.users (is_abandoned now)) now w

  -- One transaction for each order that was found.
  unfoldable pub expire_each : List (ℕ × Order) → World P → World P
  expire_each [] w = w
  expire_each ((id, o) ∷ rows) w =
      expire_each rows (record w { orders = P.update w.orders id as_expired })

  -- The hours are subtracted as by `getHoursAgoInBrazil`.
  unfoldable pub expire_unpaid_orders : Calendar → ℕ → ℕ → World P → World P
  expire_unpaid_orders calendar now hours w =
      expire_each (P.find_many w.orders (is_unpaid P calendar now hours w)) w
