-- ===== src/Order/Recent.antt =====
-- The search of `create` for an order of the last five seconds that the request repeats.
pub mod Laws
use recharge_plataform_api.Prelude.{
  ℕ, ◌+◌, ◌-◌, ◌*◌, ◌≤◌, ◌≡◌, Bool, true, false, ◌&&◌, Option, none, some, List, [], ◌∷◌, ◌==◌, leb,
  head?, if◌then◌else◌,
}
use recharge_plataform_api.Prelude.Text.{Text, text_eq}
use recharge_plataform_api.Prisma.{Prisma}
use recharge_plataform_api.Schema.{
  Order, OrderStatus, created, expired, Payment, PackageInfo, CouponUsage, Recharge,
}
use recharge_plataform_api.Database.{World, on_option}
use recharge_plataform_api.Order.Expiry.{is_pending}

-- `Math.abs(a - b) < 0.01` and `Math.abs(a - b) > 0.01` on two amounts, from their cents. Equal amounts
-- match and do not differ; amounts that are one cent apart differ, in floats, by a little more or a
-- little less.
pub record PriceTest : Type 0 where
  pub price_matches : ℕ → ℕ → Bool
  pub matches_same : (a : ℕ) → price_matches a a ≡ true
  pub matches_near : (a b : ℕ) → price_matches a b ≡ true → (a ≤ b + 1) × (b ≤ a + 1)
  pub price_differs : ℕ → ℕ → Bool
  pub differs_same : (a : ℕ) → price_differs a a ≡ false
  pub differs_near : (a b : ℕ) → price_differs a b ≡ false → (a ≤ b + 1) × (b ≤ a + 1)

-- CREATED or EXPIRED
abbrev pub is_unprocessed : OrderStatus → Bool
is_unprocessed created = true
is_unprocessed expired = true
is_unprocessed s = false

-- The coupon of the request against that of the recent order: its first usage, or none at all.
abbrev pub same_coupon : Option ℕ → List (ℕ × CouponUsage) → Bool
same_coupon none [] = true
same_coupon none (u ∷ us) = false
same_coupon (some c) [] = false
same_coupon (some c) (u ∷ us) = u.1.coupon_id == c

module _ (P : Prisma) where
  -- The `where` of the search.
  abbrev pub is_recent : ℕ → ℕ → ℕ → Text → ℕ → World P → Order → Bool
  is_recent user store pkg bigo_id now w o =
      o.user_id == user
      && (o.store_id == store
          && (on_option false (λ (i : PackageInfo). i.package_id == pkg)
                (P.find_unique w.package_infos o.package_id)
              && (on_option false (λ (r : Recharge). text_eq r.user_id_for_recharge bigo_id)
                    (P.find_unique w.recharges o.recharge_id)
                  && leb (now - 5000) o.created_at)))

  -- The tests on the order that was found.
  abbrev pub is_reusable : PriceTest → Option ℕ → ℕ → World P → ℕ × Order → Bool
  is_reusable prices coupon final w e =
      on_option false (λ (p : Payment). is_pending p.status)
        (P.find_unique w.payments e.1.payment_id)
      && (is_unprocessed e.1.order_status
          && (prices.price_matches e.1.price final
              && same_coupon coupon (P.find_many w.coupon_usages (λ u. u.order_id == e.0))))

  unfoldable pub recent_order :
      PriceTest → ℕ → ℕ → ℕ → Text → Option ℕ → ℕ → ℕ → World P → Option (ℕ × Order)
  recent_order prices user store pkg bigo_id coupon final now w =
      on_option none (λ e. if is_reusable prices coupon final w e then some e else none)
        (head? (P.find_many w.orders (is_recent user store pkg bigo_id now w)))
