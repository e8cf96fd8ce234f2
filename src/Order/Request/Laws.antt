-- ===== src/Order/Request/Laws.antt =====
-- An order that is refused leaves no rows behind.
use recharge_plataform_api.Prelude.{ℕ, ◌≡◌, refl, ap, sym, ◌∙◌, Option, none}
use recharge_plataform_api.Prelude.Text.{Text}
use recharge_plataform_api.Prisma.{Prisma}
use recharge_plataform_api.Schema.{
  Order, Payment, Recharge, PackageInfo, CouponUsage, User, Package, PaymentMethod,
}
use recharge_plataform_api.Database.{World, Error, err}
use recharge_plataform_api.Database.Frame.{Keeps, Keeps-bind, Keeps-then, Keeps-try, Keeps-if}
use recharge_plataform_api.Database.Atomic.{
  Atomic, Atomic-bind, Atomic-then, Atomic-try, Atomic-finish, Atomic-transaction, Atomic-option,
  Atomic-reads, Keeps-reads, Keeps-throw_if,
}
use recharge_plataform_api.Bigo.Frame.{precheck-Keeps}
use recharge_plataform_api.Bigo.Service.{recharge_precheck}
use recharge_plataform_api.Order.Create.{OrderData, create_rows}
use recharge_plataform_api.Order.Request.{
  CreateOrderDto, Surroundings, precheck, precheck_body, final_price, pay_by_pix, place_order,
  place_and_read, create_checked, create,
}
use recharge_plataform_api.Order.Request.Placed.{placed}

module _ (P : Prisma) (out : Surroundings) where
  -- The tables that the transaction of `create` writes.
  abbrev pub rows_of :
      World P
      → P.Table Order
        × P.Table Payment
        × P.Table Recharge
        × P.Table PackageInfo
        × P.Table CouponUsage
  rows_of w = (w.orders, w.payments, w.recharges, w.package_infos, w.coupon_usages)

  asked-kept :
      (bigo_id : Text)
      → Keeps rows_of (recharge_precheck P (precheck_body bigo_id) none out.seqid out.bigo)
  asked-kept bigo_id =
      precheck-Keeps P rows_of (λ w t. refl) (λ w ts n m. refl) (precheck_body bigo_id) none
        out.seqid out.bigo

  precheck-kept : (bigo_id : Text) → Keeps rows_of (precheck P out bigo_id)
  unfolding precheck
  precheck-kept bigo_id = search (Keeps-try, Keeps-bind, Keeps-reads, asked-kept) depth 8

  price-kept :
      (price : ℕ) (title : Option Text) (bigo_id : Text) (store user : ℕ)
      → Keeps rows_of (final_price P out price title bigo_id store user)
  unfolding final_price
  price-kept price title bigo_id store user = Keeps-reads _

  pix-kept :
      (number : Text) (price store : ℕ) (u : User) (pkg : Package)
      → Keeps rows_of (pay_by_pix P out number price store u pkg)
  unfolding pay_by_pix
  pix-kept number price store u pkg =
      search (Keeps-bind, Keeps-then, Keeps-reads, Keeps-throw_if) depth 14

  rows-Atomic : (d : OrderData) → Atomic rows_of (create_rows P out.now d)
  unfolding create_rows
  rows-Atomic d = Atomic-transaction _

  place-Atomic :
      (dto : CreateOrderDto) (store user : ℕ) (u : User) (pkg : Package) (method : PaymentMethod)
      (number : Text) (price : ℕ) (coupon : Option ℕ)
      → Atomic rows_of (place_order P out dto store user u pkg method number price coupon)
  unfolding place_order
  place-Atomic dto store user u pkg method number price coupon =
      search (Atomic-bind, Keeps-if, Keeps-bind, Keeps-reads, pix-kept, rows-Atomic) depth 12

  read-Atomic :
      (dto : CreateOrderDto) (store user : ℕ) (u : User) (pkg : Package) (method : PaymentMethod)
      (number : Text) (price : ℕ) (coupon : Option ℕ)
      → Atomic rows_of (place_and_read P out dto store user u pkg method number price coupon)
  unfolding place_and_read
  read-Atomic dto store user u pkg method number price coupon =
      Atomic-finish _ (place-Atomic dto store user u pkg method number price coupon) (λ s id h.
        let (o, there, by, at, status, payment, exact) =
          placed P out dto store user u pkg method number price coupon s id h in
        (id, rw there))

  checked-Atomic :
      (dto : CreateOrderDto) (store user : ℕ) → Atomic rows_of (create_checked P out dto store user)
  unfolding create_checked
  checked-Atomic dto store user =
      search
        (
          Atomic-bind, Atomic-then, Atomic-option, Atomic-reads, Atomic-finish, Keeps-reads,
          Keeps-throw_if, precheck-kept, price-kept, read-Atomic,
        )
        depth 30

  create-Atomic :
      (dto : CreateOrderDto) (store user : ℕ) → Atomic rows_of (create P out dto store user)
  unfolding create
  create-Atomic dto store user =
      search (Atomic-then, Atomic-try, Keeps-throw_if, Keeps-reads, checked-Atomic) depth 8

  -- If `create` throws, whatever the error, in a call that no other request interrupts, the tables of
  -- orders, payments, recharges, package copies and coupon usages are as they were before the call.
  pub create_refused :
      (dto : CreateOrderDto) (store user : ℕ) (w w' : World P) (e : Error)
      → create P out dto store user w ≡ (err e, w')
      → rows_of w' ≡ rows_of w
  create_refused dto store user w w' e threw =
      sym (ap (λ r. rows_of r.1) threw)
      ∙ (create-Atomic dto store user).unchanged w e (ap (λ r. r.0) threw)
