-- ===== src/Order/Request/Placed.antt =====
-- The order that `create` gives back: whose it is, what it costs and that it waits for its payment.
use recharge_plataform_api.Prelude.{
  ℕ, ◌+◌, ◌≤◌, ◌≡◌, refl, ◌⊎◌, inl, inr, arith, false, Option, none, some, head?, Option-cases,
  Bool-cases, sym, ap, subst, ◌∙◌, ◌==◌, ==→eq,
}
use recharge_plataform_api.Prelude.Text.{Text, text_eq}
use recharge_plataform_api.Prisma.{Prisma}
use recharge_plataform_api.Schema.{Order, created, expired, User, Package, PaymentMethod}
use recharge_plataform_api.Database.{World, ok, err, Error, pure, on_option}
use recharge_plataform_api.Database.Laws.{find-create_self}
use recharge_plataform_api.Database.Returns.{
  Returns, Returns-bind, Returns-then, Returns-throw_if, Returns-pure, Returns-rethrow,
}
use recharge_plataform_api.Order.Create.{
  new_recharge, new_package_info, OrderData, new_payment, create_rows,
}
use recharge_plataform_api.Order.Create.Laws.{order_row, rows_written, rows_refused}
use recharge_plataform_api.Order.Request.Price.{price_le}
use recharge_plataform_api.Order.Recent.{recent_order}
use recharge_plataform_api.Order.Recent.Laws.{HasParts, recent_order-IsRepeated}
use recharge_plataform_api.Order.Request.{
  CreateOrderDto, Surroundings, priced, final_price, find_method, place_order, place_and_read,
  create_checked, create,
}

module _ (P : Prisma) where
  -- An order of the user at the store for a package and an account, which waits for its payment, at a
  -- price.
  abbrev pub IsWaiting : ℕ → ℕ → ℕ → Text → (ℕ → Type 0) → ℕ → World P → Type 0
  IsWaiting user store pkg bigo_id IsPrice id v =
      (o : Order) × (P.find_unique v.orders id ≡ some o)
      × (o.user_id ≡ user)
      × (o.store_id ≡ store)
      × ((o.order_status ≡ created) ⊎ (o.order_status ≡ expired))
      × HasParts P pkg bigo_id o v
      × IsPrice o.price

  rows-Returns :
      (now : ℕ) (d : OrderData) (w : World P)
      → Returns
          (IsWaiting d.user_id d.store_id d.package_id d.user_id_for_recharge
            (λ price. price ≡ d.price))
          w
          (create_rows P now d)
  rows-Returns now d w = record {
    returned = λ id h.
        elim (Option-cases
          (head? (P.find_many w.orders (λ o. text_eq o.order_number d.order_number)))) [
            | inr (e, taken) ↦ absurd (rows_refused P now d w e id taken h)
            | inl free ↦
                let (done, orders, payments, recharges, packages) = rows_written P now d w free in
                let same : (P.create w.orders (order_row P now d w)).0 ≡ id = cc (sym done ∙ h) in
                (
                  order_row P now d w,
                  rw (orders, ← same) (find-create_self P w.orders (order_row P now d w)),
                  refl,
                  refl,
                  inl refl,
                  (
                    (
                      new_payment now d,
                      rw payments (find-create_self P w.payments (new_payment now d)),
                      refl,
                    ),
                    (
                      new_recharge now d,
                      rw recharges (find-create_self P w.recharges (new_recharge now d)),
                      refl,
                    ),
                    (
                      new_package_info d,
                      rw packages (find-create_self P w.package_infos (new_package_info d)),
                      refl,
                    ),
                  ),
                  refl,
                )
          ];
  }

  module _ (out : Surroundings) where
    module _ (dto : CreateOrderDto) (store user : ℕ) where
      placed-Returns :
          (u : User) (pkg : Package) (method : PaymentMethod) (number : Text) (price : ℕ)
          (coupon : Option ℕ) (w : World P)
          → Returns
              (IsWaiting user store dto.package_id dto.user_id_for_recharge (λ p. p ≡ price))
              w
              (place_order P out dto store user u pkg method number price coupon)
      unfolding place_order
      placed-Returns u pkg method number price coupon w =
          search (Returns-bind, rows-Returns) depth 6

      pub placed :
          (u : User) (pkg : Package) (method : PaymentMethod) (number : Text) (price : ℕ)
          (coupon : Option ℕ) (w : World P) (id : ℕ)
          → (place_order P out dto store user u pkg method number price coupon w).0 ≡ ok id
          → IsWaiting user store dto.package_id dto.user_id_for_recharge
              (λ p. p ≡ price)
              id
              (place_order P out dto store user u pkg method number price coupon w).1
      placed u pkg method number price coupon w =
          (placed-Returns u pkg method number price coupon w).returned

      -- Reading it again changes nothing.
      read-Returns :
          (u : User) (pkg : Package) (method : PaymentMethod) (number : Text) (price : ℕ)
          (coupon : Option ℕ) (w : World P)
          → Returns
              (IsWaiting user store dto.package_id dto.user_id_for_recharge (λ p. p ≡ price))
              w
              (place_and_read P out dto store user u pkg method number price coupon)
      unfolding place_and_read
      read-Returns u pkg method number price coupon w =
          search (Returns-bind, Returns-pure, placed) depth 8

      -- What `create` promises of the order that it gives back, found in a state of before.
      abbrev pub IsPlaced : World P → ℕ → World P → Type 0
      IsPlaced w id v =
          (method : PaymentMethod) × (P.find_unique w.payment_methods dto.payment_method_id
            ≡ some method)
          × (method.package_id ≡ dto.package_id)
          × IsWaiting user store dto.package_id dto.user_id_for_recharge
              (λ price.
                (price ≤ method.price + 1) × (price ≤ dto.price + 2) × (dto.price ≤ price + 2))
              id v

      find_method_lem :
          (w : World P) (method : PaymentMethod)
          → find_method P out dto.payment_method_id dto.package_id w ≡ some method
          → (P.find_unique w.payment_methods dto.payment_method_id ≡ some method)
            × (method.package_id ≡ dto.package_id)
      find_method_lem w method h =
          elim (Option-cases (P.find_unique w.payment_methods dto.payment_method_id)) [
            | inl gone ↦ cc (rw gone at h)
            | inr (m, there) ↦ elim (Bool-cases (m.package_id == dto.package_id)) [
              | inr other ↦ cc (rw (there, other) at h)
              | inl same ↦
                  let found : m ≡ method = cc (rw (there, same) at h) in
                  (
                    there ∙ ap some found,
                    ap (λ x. x.package_id) (sym found) ∙ ==→eq m.package_id dto.package_id same,
                  )
            ]
          ]

      waiting_near :
          (final : ℕ) (method : PaymentMethod) (id : ℕ) (v : World P)
          → final ≤ method.price
          → final ≤ dto.price + 1
          → dto.price ≤ final + 1
          → IsWaiting user store dto.package_id dto.user_id_for_recharge
              (λ p. (p ≤ final + 1) × (final ≤ p + 1))
              id
              v
          → IsWaiting user store dto.package_id dto.user_id_for_recharge
              (λ p. (p ≤ method.price + 1) × (p ≤ dto.price + 2) × (dto.price ≤ p + 2))
              id
              v
      waiting_near final method id v cheap low high
            (o, there, by, at, status, payment, (near, near')) =
          (o, there, by, at, status, payment, (omega arith, omega arith, omega arith))

      last-Returns :
          (w v : World P) (u : User) (pkg : Package) (method : PaymentMethod) (number : Text)
          (final : ℕ × Option ℕ) (recent : Option (ℕ × Order))
          → find_method P out dto.payment_method_id dto.package_id w ≡ some method
          → final.0 ≤ method.price
          → out.prices.price_differs final.0 dto.price ≡ false
          → recent_order P out.prices user store dto.package_id dto.user_id_for_recharge final.1
              final.0 out.now v
            ≡ recent
          → Returns (IsPlaced w) v (
              on_option
                (place_and_read P out dto store user u pkg method number final.0 final.1)
                (λ e. pure e.0)
                recent)
      last-Returns w v u pkg method number final none chosen cheap close found =
          let (there, of_package) = find_method_lem w method chosen in
          let (low, high) = out.prices.differs_near final.0 dto.price close in
          record {
            returned = λ id h.
                let (o, here, by, at, status, payment, exact) =
                  (read-Returns u pkg method number final.0 final.1 v).returned id h in
                (
                  method,
                  there,
                  of_package,
                  waiting_near final.0 method id
                      (place_and_read P out dto store user u pkg method number final.0 final.1 v).1
                      cheap low high (o, here, by, at, status, payment, (omega arith, omega arith)),
                );
          }
      last-Returns w v u pkg method number final (some (id, o)) chosen cheap close found =
          let (there, of_package) = find_method_lem w method chosen in
          let (low, high) = out.prices.differs_near final.0 dto.price close in
          let (here, by, at, young, status, payment, near, near') =
            recent_order-IsRepeated P out.prices user store dto.package_id dto.user_id_for_recharge
              final.1 final.0 out.now v (id, o) found in
          Returns-pure id (
            method,
            there,
            of_package,
            waiting_near final.0 method id v cheap low high
                (o, here, by, at, status, payment, (near, near')),
          )

      read_some :
          {A : Type 0} (e : Error) (o : Option A) (a : A)
          → on_option (err e) ok o ≡ ok a
          → o ≡ some a
      read_some e none a h = cc h
      read_some e (some b) a h = cc h

      end-Returns :
          (w s v : World P) (e : Error) (u : User) (pkg : Package) (method : PaymentMethod)
          (number : Text) (final : ℕ × Option ℕ) (recent : Option (ℕ × Order))
          → on_option (err e) ok (find_method P out dto.payment_method_id dto.package_id w)
            ≡ ok method
          → (final_price P out method.price dto.coupon_title dto.user_id_for_recharge store user
              s).0
            ≡ ok final
          → out.prices.price_differs final.0 dto.price ≡ false
          → ok (
              recent_order P out.prices user store dto.package_id dto.user_id_for_recharge final.1
                final.0 out.now v)
            ≡ ok recent
          → Returns (IsPlaced w) v (
              on_option
                (place_and_read P out dto store user u pkg method number final.0 final.1)
                (λ e. pure e.0)
                recent)
      end-Returns w s v e u pkg method number final recent chosen priced close found =
          last-Returns w v u pkg method number final recent (read_some e _ method chosen)
            (price_le P out method.price dto.coupon_title dto.user_id_for_recharge store user s
              final priced)
            close (cc found)

      checked-Returns : (w : World P) → Returns (IsPlaced w) w (create_checked P out dto store user)
      unfolding create_checked
      checked-Returns w =
          search (Returns-throw_if, Returns-bind, Returns-then, end-Returns) depth 24

      create-Returns : (w : World P) → Returns (IsPlaced w) w (create P out dto store user)
      unfolding create
      create-Returns w = search (Returns-throw_if, Returns-rethrow, checked-Returns) depth 8

      -- If `create` returns, its method was there for the package, and the order that it gives back is there:
      -- it is the user's at the store, for the package and the account of the request, CREATED or EXPIRED
      -- with a pending payment, costs at most a cent more than the method, and is within two cents of
      -- the price that the request gave.
      pub create-IsPlaced :
          (id : ℕ) (w w' : World P) → create P out dto store user w ≡ (ok id, w') → IsPlaced w id w'
      create-IsPlaced id w w' done =
          subst (IsPlaced w id) (ap (λ r. r.1) done)
            ((create-Returns w).returned id (ap (λ r. r.0) done))
