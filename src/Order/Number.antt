-- ===== src/Order/Number.antt =====
-- The loop of `create` that looks for an order number no order has. The numbers that
-- `generateOrderNumber` yields, one for each round, are a parameter: it reads the clock and a random
-- number.
pub mod Laws
use recharge_plataform_api.Prelude.{
  ℕ, zero, suc, Bool, true, false, Option, none, some, List, [], ◌∷◌, head?, leb, if◌then◌else◌,
}
use recharge_plataform_api.Prelude.Text.{Text, codes, text_eq}
use recharge_plataform_api.Prisma.{Prisma}
use recharge_plataform_api.Schema.{Order}
use recharge_plataform_api.Database.{World, Result, ok, err, http_exception, bad_request, on_option}

abbrev pub max_attempts : ℕ
max_attempts = 5

module _ (P : Prisma) (generate_order_number : ℕ → Text) where
  -- `prisma.order.findUnique({ where: { orderNumber } })`
  abbrev pub is_taken : World P → Text → Bool
  is_taken w order_number =
      on_option false (λ e. true)
        (head? (P.find_many w.orders (λ (o : Order). text_eq o.order_number order_number)))

  -- The rounds of the `do` loop, from a number of attempts; `none` when the fuel runs out.
  unfoldable pub number_loop : ℕ → ℕ → World P → Option (Result Text)
  number_loop zero attempts w = none
  number_loop (suc fuel) attempts w =
      let rest = number_loop fuel (suc attempts) w in
      if leb max_attempts (suc attempts)
      then some (err (http_exception bad_request (codes "Failed to generate unique order number")))
      else if is_taken w (generate_order_number attempts)
      then rest
      else some (ok (generate_order_number attempts))

  unfoldable pub unique_order_number : World P → Option (Result Text)
  unfolding number_loop
  unique_order_number w = number_loop max_attempts 0 w
