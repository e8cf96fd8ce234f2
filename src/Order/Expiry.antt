-- ===== src/Order/Expiry.antt =====
-- `checkAndExpireOrders` of `order.service.ts`.
pub mod Laws
use recharge_plataform_api.Prelude.{
  ℕ, ◌-◌, ◌*◌, Bool, true, false, ◌&&◌, Option, none, some, List, [], ◌∷◌, ◌==◌, leb, ltb, any,
  keep, length, if◌then◌else◌,
}
use recharge_plataform_api.Prisma.{Prisma}
use recharge_plataform_api.Utils.Calendar.{Calendar}
use recharge_plataform_api.Schema.{
  Order, OrderStatus, created, expired, Payment, PaymentStatus, payment_pending,
}
use recharge_plataform_api.Database.{World, on_option}

abbrev pub is_created : OrderStatus → Bool
is_created created = true
is_created s = false

abbrev pub is_pending : PaymentStatus → Bool
is_pending payment_pending = true
is_pending s = false

-- An absent filter lets everything pass.
abbrev pub in_store : Option ℕ → ℕ → Bool
in_store none store = true
in_store (some s) store = store == s

abbrev pub in_ids : List ℕ → ℕ → Bool
in_ids [] id = true
in_ids (i ∷ is) id = any (λ j. id == j) (i ∷ is)

abbrev pub as_expired : Order → Order
as_expired o = record o { order_status = expired }

module _ (P : Prisma) (calendar : Calendar) where
  -- `createdAt: { lte: maxDateEndOfDay }`
  abbrev pub up_to : Option ℕ → ℕ → Bool
  up_to none instant = true
  up_to (some d) instant = leb instant (calendar.end_of_day d)

  -- `payment: { status: PAYMENT_PENDING }`
  abbrev pub has_pending_payment : World P → ℕ → Bool
  has_pending_payment w payment_id =
      on_option false (λ (p : Payment). is_pending p.status) (P.find_unique w.payments payment_id)

  -- The `where` of the update. The threshold is `getHoursAgoInBrazil`, the present less the hours.
  abbrev pub expires : Option ℕ → List ℕ → Option ℕ → ℕ → ℕ → World P → ℕ → Order → Bool
  expires store ids max_date now hours w id o =
      is_created o.order_status
      && (has_pending_payment w o.payment_id
          && (ltb o.created_at (now - hours * 60 * 60 * 1000)
              && (up_to max_date o.created_at && (in_store store o.store_id && in_ids ids id))))

  -- The number of expired orders, and the new state.
  unfoldable pub check_and_expire_orders :
      Option ℕ → List ℕ → Option ℕ → ℕ → ℕ → World P → ℕ × World P
  check_and_expire_orders store ids max_date now hours w =
      let test = expires store ids max_date now hours w in
      (
        length (keep (λ e. test e.0 e.1) (P.find_many w.orders (λ _. true))),
        record w { orders = P.update_many w.orders test as_expired },
      )
