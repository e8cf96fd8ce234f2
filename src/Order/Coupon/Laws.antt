-- ===== src/Order/Coupon/Laws.antt =====
-- When `validateCoupon` accepts a coupon, and what it takes off.
use recharge_plataform_api.Prelude.{
  ℕ, zero, suc, ◌+◌, ◌*◌, ◌≤◌, ◌≡◌, refl, ◌⊎◌, inl, inr, Bool, true, false, ◌&&◌, not, Option, none,
  some, List, [], ◌∷◌, ◌==◌, ltb, if◌then◌else◌, head?, length, HasRow, arith, Option-cases,
}
use recharge_plataform_api.Prelude.Int.{ℤ, pos, ltb_ℤ}
use recharge_plataform_api.Prelude.Text.{Text}
use recharge_plataform_api.Prisma.{Prisma}
use recharge_plataform_api.Schema.{Order, Coupon, CouponUsage}
use recharge_plataform_api.Database.{World, on_option}
use recharge_plataform_api.Database.Laws.{head-found}
use recharge_plataform_api.Bigo.Service.{is_blank, or_text}
use recharge_plataform_api.Order.Coupon.{
  Money, CouponCheck, accepted, refuse_if, discount_of, final_amount, is_coupon, order_count,
  is_live_usage, is_used, is_for_bigo_id, check_coupon, validate_coupon,
}

not_refused :
    (b : Bool) (m : Text) (k : CouponCheck) (d f id : ℕ)
    → refuse_if b m k ≡ accepted d f id
    → (b ≡ false) × (k ≡ accepted d f id)
not_refused true m k d f id h = cc h
not_refused false m k d f id h = (refl, h)

mul_le : (amount p : ℕ) → p ≤ 10000 → amount * p ≤ amount * 10000
mul_le zero p h = omega arith
mul_le (suc n) p h = omega (arith, mul_le n p h)

-- A condition that holds only of some coupons, from what follows its failing.
unless : {A : Type 0} (a b : Bool) → (a && b) ≡ false → (b ≡ false → A) → (a ≡ false) ⊎ A
unless true b h k = inr (k h)
unless false b h k = inl refl

not-false : (b : Bool) → not b ≡ false → b ≡ true
not-false true h = refl
not-false false h = cc h

count_zero : (n : ℕ) → ltb 0 n ≡ false → n ≡ 0
count_zero n h = ground arith

not_past :
    (now : ℕ) (o : Option ℕ)
    → on_option false (λ t. ltb t now) o ≡ false
    → (o ≡ none) ⊎ ((t : ℕ) × (o ≡ some t) × (now ≤ t))
not_past now none h = inl refl
not_past now (some t) h = inr (t, refl, ground arith)

not_used_up :
    (used : ℤ) (o : Option ℕ)
    → on_option false (λ m. ltb 0 m && not (ltb_ℤ used (pos m))) o ≡ false
    → (o ≡ none) ⊎ ((m : ℕ) × (o ≡ some m) × ((m ≡ 0) ⊎ (ltb_ℤ used (pos m) ≡ true)))
not_used_up used none h = inl refl
not_used_up used (some m) h = inr (
  m,
  refl,
  elim (unless (ltb 0 m) _ h (λ e. not-false (ltb_ℤ used (pos m)) e)) [
    | inl unlimited ↦ inl (count_zero m unlimited)
    | inr left ↦ inr left
  ],
)

not_below :
    (amount : ℕ) (o : Option ℕ)
    → on_option false (λ m. ltb amount m) o ≡ false
    → (o ≡ none) ⊎ ((m : ℕ) × (o ≡ some m) × (m ≤ amount))
not_below amount none h = inl refl
not_below amount (some m) h = inr (m, refl, ground arith)

no_row :
    {R : Type 0} (i : ℕ) (r : R) (rows : List (ℕ × R))
    → ltb 0 (length rows) ≡ false
    → HasRow i r rows
    → ⊥
no_row i r [] h there = there
no_row i r (e ∷ rows) h there = ground arith

module _ (money : Money) where
  round_le : (amount p : ℕ) → p ≤ 10000 → money.to_cents (amount * p) ≤ amount
  round_le amount p h = omega (arith, mul_le amount p h, money.to_cents_high (amount * p))

  -- For a percentage of at most 100, or none.
  discount_le :
      (amount : ℕ) (c : Coupon)
      → ((p : ℕ) → c.discount_percentage ≡ some p → p ≤ 10000)
      → discount_of money amount c ≤ amount
  discount_le amount c bound = elim (Option-cases c.discount_percentage) [
    | inr (p, percentage) ↦ rw percentage (round_le amount p (bound p percentage))
    | inl no_percentage ↦ elim (Option-cases c.discount_amount) [
      | inr (fixed, e) ↦ rw (no_percentage, e) (smaller fixed)
      | inl no_amount ↦ rw (no_percentage, no_amount) (omega arith)
    ]
  ]
    where
      smaller : (fixed : ℕ) → (if ltb amount fixed then amount else fixed) ≤ amount
      smaller fixed = ground arith

-- The two conditions on the bigoId and the one on the user, for a coupon for one use.
one_time :
    {A B : Type 0} (b given used_by_bigo_id used_by_user : Bool)
    → (b && given) ≡ false
    → (b && used_by_bigo_id) ≡ false
    → (b && used_by_user) ≡ false
    → (used_by_bigo_id ≡ false → A)
    → (used_by_user ≡ false → B)
    → (b ≡ false) ⊎ ((given ≡ false) × A × B)
one_time true given used_by_bigo_id used_by_user h k l f g = inr (h, f k, g l)
one_time false given used_by_bigo_id used_by_user h k l f g = inl refl

module _ (P : Prisma) where
  -- No usage of the coupon by an order that passes the test is live.
  abbrev pub IsUnused : ℕ → (Order → Bool) → World P → Type 0
  IsUnused id test w =
      (j : ℕ) (u : CouponUsage)
      → P.find_unique w.coupon_usages j ≡ some u
      → is_live_usage P id test w u ≡ true
      → ⊥

  -- What makes the coupon `c` acceptable to a user of a store.
  abbrev pub IsEligible : ℕ → Coupon → ℕ → ℕ → ℕ → Option Text → ℕ → World P → Type 0
  IsEligible id c amount store user bigo_id now w =
      (c.is_active ≡ true)
      × ((c.expires_at ≡ none) ⊎ ((t : ℕ) × (c.expires_at ≡ some t) × (now ≤ t)))
      × ((c.max_uses ≡ none)
          ⊎ ((m : ℕ) × (c.max_uses ≡ some m) × ((m ≡ 0) ⊎ (ltb_ℤ c.times_used (pos m) ≡ true))))
      × ((c.min_order_amount ≡ none) ⊎ ((m : ℕ) × (c.min_order_amount ≡ some m) × (m ≤ amount)))
      × ((c.is_first_purchase ≡ false) ⊎ (order_count P user store w ≡ 0))
      × ((c.is_one_time_per_bigo_id ≡ false)
          ⊎ ((is_blank bigo_id ≡ false)
              × IsUnused id (is_for_bigo_id P (or_text bigo_id []) w) w
              × IsUnused id (λ o. o.user_id == user) w))

  unused :
      (id : ℕ) (test : Order → Bool) (w : World P)
      → is_used P id test w ≡ false
      → IsUnused id test w
  unused id test w h j u there live =
      no_row j u (P.find_many w.coupon_usages (is_live_usage P id test w)) h
        (P.find_many_complete w.coupon_usages (is_live_usage P id test w) j u there live)

  module _ (money : Money) where
    pub check_coupon-IsEligible :
        (id : ℕ) (c : Coupon) (amount store user : ℕ) (bigo_id : Option Text) (now : ℕ)
        (w : World P) (d f n : ℕ)
        → check_coupon P money (id, c) amount store user bigo_id now w ≡ accepted d f n
        → IsEligible id c amount store user bigo_id now w
          × (accepted (discount_of money amount c) (final_amount money amount c) id
              ≡ accepted d f n)
    unfolding check_coupon
    check_coupon-IsEligible id c amount store user bigo_id now w d f n h =
        let (active, h1) = not_refused _ _ _ d f n h in
        let (fresh, h2) = not_refused _ _ _ d f n h1 in
        let (uses, h3) = not_refused _ _ _ d f n h2 in
        let (enough, h4) = not_refused _ _ _ d f n h3 in
        let (first, h5) = not_refused _ _ _ d f n h4 in
        let (given, h6) = not_refused _ _ _ d f n h5 in
        let (by_bigo_id, h7) = not_refused _ _ _ d f n h6 in
        let (by_user, h8) = not_refused _ _ _ d f n h7 in
        (
          (
            not-false c.is_active active,
            not_past now c.expires_at fresh,
            not_used_up c.times_used c.max_uses uses,
            not_below amount c.min_order_amount enough,
            unless _ _ first (λ e. count_zero (order_count P user store w) e),
            one_time c.is_one_time_per_bigo_id _ _ _ given by_bigo_id by_user
                (unused id (is_for_bigo_id P (or_text bigo_id []) w) w)
                (unused id (λ o. o.user_id == user) w),
          ),
          h8,
        )

    -- An accepted coupon is a coupon of that title at that store which is not deleted, and eligible:
    -- active, not past its expiry, with a limit of uses that is absent, 0 or not reached, and with its
    -- minimum reached, where it has one; a first purchase coupon is for a user with no order at the
    -- store that is not expired, and a coupon for one use per bigoId has no live usage for the
    -- bigoId, nor by the user. Discount and final amount add up to the amount, when no
    -- percentage in the database is over 100.
    pub validate_coupon_accepted :
        (title : Text) (amount store user : ℕ) (bigo_id : Option Text) (now : ℕ) (w : World P)
        (d f id : ℕ)
        → ((j : ℕ) (c : Coupon) (p : ℕ)
            → P.find_unique w.coupons j ≡ some c
            → c.discount_percentage ≡ some p
            → p ≤ 10000)
        → validate_coupon P money title amount store user bigo_id now w ≡ accepted d f id
        → (c : Coupon) × (P.find_unique w.coupons id ≡ some c)
          × (is_coupon P title store c ≡ true)
          × IsEligible id c amount store user bigo_id now w
          × (d + f ≡ amount)
    unfolding validate_coupon
    validate_coupon_accepted title amount store user bigo_id now w d f id bounds h =
        elim (Option-cases (head? (P.find_many w.coupons (is_coupon P title store)))) [
          | inl none_there ↦ cc (rw none_there at h)
          | inr (e, first) ↦
              let (eligible, made) =
                check_coupon-IsEligible e.0 e.1 amount store user bigo_id now w d f id
                  (rw first at h) in
              let (there, passed) = head-found P w.coupons (is_coupon P title store) e first in
              let same : e.0 ≡ id = cc made in
              let discount : discount_of money amount e.1 ≡ d = cc made in
              let final : final_amount money amount e.1 ≡ f = cc made in
              let less =
                discount_le money amount e.1 (λ p percentage. bounds e.0 e.1 p there percentage) in
              (
                e.1,
                rw (← same) there,
                passed,
                rw (← same) eligible,
                omega (arith, less, discount, final),
              )
        ]
