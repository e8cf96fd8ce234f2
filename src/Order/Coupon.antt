-- ===== src/Order/Coupon.antt =====
-- `validateCoupon` of `order.service.ts`: it only reads, so that it is a function of the state.
-- Errors of the database, which it answers with 'Failed to validate coupon', are not modelled.
pub mod Laws
use recharge_plataform_api.Prelude.{
  ℕ, ◌+◌, ◌*◌, ◌-◌, ◌≤◌, Bool, true, false, ◌&&◌, not, Option, none, some, List, [], ◌++◌, ◌==◌,
  ltb, leb, head?, length, map_option, if◌then◌else◌,
}
use recharge_plataform_api.Prelude.Int.{ℤ, pos, ltb_ℤ}
use recharge_plataform_api.Prelude.Text.{Text, codes, text_eq}
use recharge_plataform_api.Prisma.{Prisma}
use recharge_plataform_api.Schema.{
  Order, OrderStatus, expired, refounded, Payment, PaymentStatus, payment_rejected, Recharge,
  Coupon, CouponUsage,
}
use recharge_plataform_api.Database.{World, on_option}
use recharge_plataform_api.Bigo.Service.{is_blank, or_text}

-- `Number((n / 10000).toFixed(2))` on hundredths: a number of ten-thousandths of a cent to cents, to
-- the nearest; and the text of a `Decimal`, from cents.
pub record Money : Type 0 where
  pub to_cents : ℕ → ℕ
  pub decimal_text : ℕ → Text
  pub to_cents_low : (n : ℕ) → n ≤ 10000 * to_cents n + 5000
  pub to_cents_high : (n : ℕ) → 10000 * to_cents n ≤ n + 5000

-- `{ valid: false, message }`, or the discount, the final amount and the id of the coupon.
pub data CouponCheck : Type 0 where
  refused : Text → CouponCheck
  accepted : ℕ → ℕ → ℕ → CouponCheck

-- `if (c) return { valid: false, message }`
abbrev pub refuse_if : Bool → Text → CouponCheck → CouponCheck
refuse_if true message rest = refused message
refuse_if false message rest = rest

abbrev pub is_expired_order : OrderStatus → Bool
is_expired_order expired = true
is_expired_order s = false

-- `orderStatus: { notIn: ['EXPIRED', 'REFOUNDED'] }`
abbrev pub is_open_order : OrderStatus → Bool
is_open_order expired = false
is_open_order refounded = false
is_open_order s = true

-- `status: { in: [PAYMENT_PENDING, PAYMENT_APPROVED] }`
abbrev pub is_paying : PaymentStatus → Bool
is_paying payment_rejected = false
is_paying s = true

abbrev pub is_past : ℕ → Coupon → Bool
is_past now c = on_option false (λ t. ltb t now) c.expires_at

-- A limit of 0 is no limit.
abbrev pub is_used_up : Coupon → Bool
is_used_up c = on_option false (λ m. ltb 0 m && not (ltb_ℤ c.times_used (pos m))) c.max_uses

abbrev pub is_below_minimum : ℕ → Coupon → Bool
is_below_minimum amount c = on_option false (λ m. ltb amount m) c.min_order_amount

module _ (money : Money) where
  -- A percentage, 0 included, goes before a fixed amount: both columns hold objects, or null.
  abbrev pub discount_of : ℕ → Coupon → ℕ
  discount_of amount c =
      on_option
        (on_option 0 (λ fixed. if ltb amount fixed then amount else fixed) c.discount_amount)
        (λ percentage. money.to_cents (amount * percentage)) c.discount_percentage

  -- `Math.max(0, orderAmount - discountAmount)`
  abbrev pub final_amount : ℕ → Coupon → ℕ
  final_amount amount c = amount - discount_of amount c

module _ (P : Prisma) where
  -- `where: { title, storeId, deletedAt: null }`
  abbrev pub is_coupon : Text → ℕ → Coupon → Bool
  is_coupon title store c =
      text_eq c.title title && (c.store_id == store && on_option true (λ t. false) c.deleted_at)

  -- `prisma.order.count` of the user's orders at the store that are not expired
  abbrev pub order_count : ℕ → ℕ → World P → ℕ
  order_count user store w = length (
      P.find_many w.orders
        (λ o. o.user_id == user && (o.store_id == store && not (is_expired_order o.order_status))))

  -- A usage of the coupon whose order is open, is being paid for or paid, and passes a test.
  abbrev pub is_live_usage : ℕ → (Order → Bool) → World P → CouponUsage → Bool
  is_live_usage coupon_id test w u =
      u.coupon_id == coupon_id
      && on_option false
          (λ (o : Order).
            test o
            && (is_open_order o.order_status
                && on_option false (λ (p : Payment). is_paying p.status)
                    (P.find_unique w.payments o.payment_id)))
          (P.find_unique w.orders u.order_id)

  abbrev pub is_used : ℕ → (Order → Bool) → World P → Bool
  is_used coupon_id test w =
      ltb 0 (length (P.find_many w.coupon_usages (is_live_usage coupon_id test w)))

  -- `recharge: { userIdForRecharge: bigoId }`
  abbrev pub is_for_bigo_id : Text → World P → Order → Bool
  is_for_bigo_id bigo_id w o =
      on_option false (λ (r : Recharge). text_eq r.user_id_for_recharge bigo_id)
        (P.find_unique w.recharges o.recharge_id)

  module _ (money : Money) where
    -- The part of `validateCoupon` after the coupon was found.
    unfoldable pub check_coupon : ℕ × Coupon → ℕ → ℕ → ℕ → Option Text → ℕ → World P → CouponCheck
    check_coupon (id, c) amount store user bigo_id now w =
        refuse_if (not c.is_active) (codes "Coupon is not active") (
          refuse_if (is_past now c) (codes "Coupon has expired") (
            refuse_if (is_used_up c) (codes "Coupon usage limit reached") (
              refuse_if (is_below_minimum amount c)
                (codes "Minimum order amount required: "
                  ++ on_option [] money.decimal_text c.min_order_amount)
                (refuse_if (c.is_first_purchase && ltb 0 (order_count user store w))
                  (codes "First purchase coupon can only be used by new customers")
                  (refuse_if (c.is_one_time_per_bigo_id && is_blank bigo_id)
                    (codes "bigoId is required for this coupon validation")
                    (refuse_if
                      (c.is_one_time_per_bigo_id
                        && is_used id (is_for_bigo_id (or_text bigo_id []) w) w)
                      (codes "This coupon can only be used once per bigoId")
                      (refuse_if
                        (c.is_one_time_per_bigo_id && is_used id (λ o. o.user_id == user) w)
                        (codes "This coupon can only be used once per account")
                        (accepted (discount_of money amount c) (final_amount money amount c)
                          id))))))))

    unfoldable pub validate_coupon : Text → ℕ → ℕ → ℕ → Option Text → ℕ → World P → CouponCheck
    unfolding check_coupon
    validate_coupon title amount store user bigo_id now w =
        on_option (refused (codes "Coupon not found"))
          (λ e. check_coupon e amount store user bigo_id now w)
          (head? (P.find_many w.coupons (is_coupon title store)))
