-- ===== src/Order/Number/Laws.antt =====
-- Which number the loop settles on.
use recharge_plataform_api.Prelude.{ℕ, ◌≡◌, inl, inr, not, some, [], ◌∷◌, Bool-cases, find}
use recharge_plataform_api.Prelude.Text.{Text, codes}
use recharge_plataform_api.Prisma.{Prisma}
use recharge_plataform_api.Database.{World, ok, err, http_exception, bad_request, on_option}
use recharge_plataform_api.Order.Number.{is_taken, unique_order_number}

module _ (P : Prisma) (generate_order_number : ℕ → Text) where
  -- The loop ends with the first of the first four generated numbers that no order has, and with an
  -- exception when all four are taken: the fifth number is generated but never used.
  pub unique_order_number_lem :
      (w : World P)
      → unique_order_number P generate_order_number w
        ≡ some (
            on_option
              (err (http_exception bad_request (codes "Failed to generate unique order number")))
              ok
              (find
                (λ n. not (is_taken P generate_order_number w n))
                (generate_order_number 0
                  ∷ generate_order_number 1
                  ∷ generate_order_number 2
                  ∷ generate_order_number 3
                  ∷ [])))
  unfolding unique_order_number
  unique_order_number_lem w =
      elim (Bool-cases (is_taken P generate_order_number w (generate_order_number 0))) [
        | inr free ↦ rw free
        | inl taken0 ↦
            elim (Bool-cases (is_taken P generate_order_number w (generate_order_number 1))) [
              | inr free ↦ rw (taken0, free)
              | inl taken1 ↦
                  elim (Bool-cases (is_taken P generate_order_number w (generate_order_number 2))) [
                    | inr free ↦ rw (taken0, taken1, free)
                    | inl taken2 ↦
                        elim (Bool-cases
                          (is_taken P generate_order_number w (generate_order_number 3))) [
                            | inr free ↦ rw (taken0, taken1, taken2, free)
                            | inl taken3 ↦ rw (taken0, taken1, taken2, taken3)
                          ]
                  ]
            ]
      ]
