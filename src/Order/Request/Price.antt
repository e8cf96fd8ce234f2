-- ===== src/Order/Request/Price.antt =====
-- The price that `create` calculates is at most that of the payment method.
use recharge_plataform_api.Prelude.{
  ℕ, ◌≤◌, ◌≡◌, refl, inl, inr, arith, Option, some, head?, Option-cases, Bool-cases, [],
}
use recharge_plataform_api.Prelude.Text.{Text}
use recharge_plataform_api.Prisma.{Prisma}
use recharge_plataform_api.Database.{World, ok, on_option}
use recharge_plataform_api.Bigo.Service.{is_blank}
use recharge_plataform_api.Order.Coupon.{
  CouponCheck, refused, accepted, Money, final_amount, is_coupon, validate_coupon,
}
use recharge_plataform_api.Order.Coupon.Laws.{check_coupon-IsEligible}
use recharge_plataform_api.Order.Request.{Surroundings, priced, final_price}

-- The price is the one that a coupon leaves of an amount.
priced_le :
    (amount : ℕ) (c : CouponCheck) (r : ℕ × Option ℕ)
    → ((d f n : ℕ) → c ≡ accepted d f n → f ≤ amount)
    → priced c ≡ ok r
    → r.0 ≤ amount
priced_le amount (refused message) r k h = cc h
priced_le amount (accepted d f n) (f', n') k h = ground (arith, k d f n refl, h)

module _ (P : Prisma) where
  validated_le :
      (money : Money) (title : Text) (amount store user : ℕ) (bigo_id : Option Text) (now : ℕ)
      (w : World P) (d f n : ℕ)
      → validate_coupon P money title amount store user bigo_id now w ≡ accepted d f n
      → f ≤ amount
  unfolding validate_coupon
  validated_le money title amount store user bigo_id now w d f n h =
      elim (Option-cases (head? (P.find_many w.coupons (is_coupon P title store)))) [
        | inl none_there ↦ cc (rw none_there at h)
        | inr (e, first) ↦
            let (eligible, made) =
              check_coupon-IsEligible P money e.0 e.1 amount store user bigo_id now w d f n
                (rw first at h) in
            let final : final_amount money amount e.1 ≡ f = cc made in omega (arith, final)
      ]

  module _ (out : Surroundings) where
    pub price_le :
        (price : ℕ) (title : Option Text) (bigo_id : Text) (store user : ℕ) (w : World P)
        (r : ℕ × Option ℕ)
        → (final_price P out price title bigo_id store user w).0 ≡ ok r
        → r.0 ≤ price
    unfolding final_price
    price_le price title bigo_id store user w r h = elim (Bool-cases (is_blank title)) [
      | inl untitled ↦ ground (arith, rw untitled at h)
      | inr titled ↦
          priced_le price
            (validate_coupon P out.money (on_option [] (λ t. t) title) price store user
              (some bigo_id) out.now w)
            r
            (λ d f n.
              validated_le out.money (on_option [] (λ t. t) title) price store user (some bigo_id)
                out.now w d f n)
            (rw titled at h)
    ]
