-- ===== src/Order/Usage/Frame.antt =====
-- Confirming and reverting coupon usages writes coupons and the influencers' monthly sales only.
use recharge_plataform_api.Prelude.{ℕ, ◌≡◌, refl, List, [], ◌∷◌, head?}
use recharge_plataform_api.Prelude.Int.{ℤ, pos, ltb_ℤ}
use recharge_plataform_api.Prelude.Text.{codes}
use recharge_plataform_api.Prisma.{Prisma}
use recharge_plataform_api.Utils.Calendar.{Calendar}
use recharge_plataform_api.Schema.{Coupon, CouponUsage, InfluencerMonthlySales}
use recharge_plataform_api.Database.{
  World, Action, ok, err, js_error, update_coupon, update_monthly_sales, create_monthly_sales,
}
use recharge_plataform_api.Database.Frame.{
  Keeps, keeps_option, keeps_update_row, Keeps-result, Keeps-then, Keeps-if, Keeps-try,
  Keeps-transaction, frame_rules,
}
use recharge_plataform_api.Order.Usage.{
  add_sales, is_month, usages_of, update_influencer_monthly_sales, confirm_one, revert_one,
  for_usages, confirm_coupon_usage, revert_coupon_usage,
}

module _ (P : Prisma) (calendar : Calendar) {B : Type 0} (view : World P → B)
    (no_coupons : (w : World P) (t : P.Table Coupon) → view (record w { coupons = t }) ≡ view w)
    (no_sales : (w : World P) (t : P.Table InfluencerMonthlySales)
      → view (record w { monthly_sales = t }) ≡ view w) where
  update_coupon-Keeps : (id : ℕ) (f : Coupon → Coupon) → Keeps view (update_coupon P id f)
  update_coupon-Keeps id f = record {
    kept = λ w.
        keeps_update_row P view w.coupons (λ t. record w { coupons = t }) id f w
          (λ t. no_coupons w t);
  }

  update_sales-Keeps :
      (id : ℕ) (f : InfluencerMonthlySales → InfluencerMonthlySales)
      → Keeps view (update_monthly_sales P id f)
  update_sales-Keeps id f = record {
    kept = λ w.
        keeps_update_row P view w.monthly_sales (λ t. record w { monthly_sales = t }) id f w
          (λ t. no_sales w t);
  }

  create_sales-Keeps : (r : InfluencerMonthlySales) → Keeps view (create_monthly_sales P r)
  create_sales-Keeps r = record { kept = λ w. no_sales w _ }

  influencer-Keeps :
      (influencer : ℕ) (amount : ℤ) (date : ℕ)
      → Keeps view (update_influencer_monthly_sales P calendar influencer amount date)
  unfolding update_influencer_monthly_sales
  influencer-Keeps influencer amount date = record {
    kept = λ w.
        keeps_option view w _ _
          (head? (
            P.find_many w.monthly_sales
              (is_month influencer (calendar.month_of date) (calendar.year_of date))))
          ((Keeps-if {view = view} (ltb_ℤ amount (pos 0))
              (Keeps-result
                (err (js_error (codes "Cannot create new record with negative sale amount"))))
              (Keeps-then
                (create_sales-Keeps (record {
                  influencer_id = influencer;
                  month = calendar.month_of date;
                  year = calendar.year_of date;
                  total_sales = amount;
                }))
                (Keeps-result (ok tt)))).kept
            w)
          (λ e. (update_sales-Keeps e.0 (add_sales amount)).kept w);
  }

  confirm_one-Keeps : (id price now : ℕ) → Keeps view (confirm_one P calendar id price now)
  unfolding confirm_one
  confirm_one-Keeps id price now = search (frame_rules, update_coupon-Keeps, influencer-Keeps)

  revert_one-Keeps : (id price now : ℕ) → Keeps view (revert_one P calendar id price now)
  unfolding revert_one
  revert_one-Keeps id price now = search (frame_rules, update_coupon-Keeps, influencer-Keeps)

  for_usages-Keeps :
      (body : ℕ → Action (World P) (Unit {0})) (us : List (ℕ × CouponUsage))
      → ((id : ℕ) → Keeps view (body id))
      → Keeps view (for_usages P body us)
  unfolding for_usages
  for_usages-Keeps body [] h = Keeps-result _
  for_usages-Keeps body (u ∷ us) h = Keeps-then (h u.1.coupon_id) (for_usages-Keeps body us h)

  pub confirm_coupon_usage-Keeps :
      (order_id now : ℕ) → Keeps view (confirm_coupon_usage P calendar order_id now)
  unfolding confirm_coupon_usage
  confirm_coupon_usage-Keeps order_id now =
      Keeps-try
        (record {
          kept = λ w. keeps_option view w _ _ (P.find_unique w.orders order_id) refl (λ o.
              (Keeps-transaction (
                  for_usages-Keeps (λ c. confirm_one P calendar c o.price now)
                    (usages_of P order_id w) (λ c. confirm_one-Keeps c o.price now))).kept
                w);
        })
        (λ e. Keeps-result (ok tt))

  pub revert_coupon_usage-Keeps :
      (order_id : ℕ) → Keeps view (revert_coupon_usage P calendar order_id)
  unfolding revert_coupon_usage
  revert_coupon_usage-Keeps order_id =
      Keeps-try
        (record {
          kept = λ w. keeps_option view w _ _ (P.find_unique w.orders order_id) refl (λ o.
              (for_usages-Keeps (λ c. revert_one P calendar c o.price o.created_at)
                  (usages_of P order_id w) (λ c. revert_one-Keeps c o.price o.created_at)).kept
                w);
        })
        (λ e. Keeps-result (ok tt))
