-- ===== src/Database/Calls.antt =====
-- The calls of the client as actions, with the errors that it throws: changing a row that is not
-- there is P2025, and creating one that breaks a unique constraint of the schema is P2002.
use recharge_plataform_api.Prelude.{ℕ, Bool, head?}
use recharge_plataform_api.Prisma.{Prisma, PrismaCode, p2002, p2025}
use recharge_plataform_api.Schema.{
  Order, Payment, Recharge, Coupon, InfluencerMonthlySales, BigoRecharge, clashes,
}
use recharge_plataform_api.Database.Actions.{World, Action, Error, prisma_error, ok, err, on_option}

module _ (P : Prisma) where
  abbrev pub client_error : PrismaCode → Error
  client_error c = prisma_error c (P.error_message c)

  -- The outcome of `update` on a table: the row must be there.
  abbrev pub update_row :
      {R : Type 0} → P.Table R → (P.Table R → World P) → ℕ → (R → R) → Action (World P) (Unit {0})
  update_row t put id f db =
      on_option (err (client_error p2025), db) (λ _. (ok tt, put (P.update t id f)))
        (P.find_unique t id)

  abbrev pub update_order : ℕ → (Order → Order) → Action (World P) (Unit {0})
  update_order id f db = update_row db.orders (λ t. record db { orders = t }) id f db

  abbrev pub update_payment : ℕ → (Payment → Payment) → Action (World P) (Unit {0})
  update_payment id f db = update_row db.payments (λ t. record db { payments = t }) id f db

  abbrev pub update_recharge : ℕ → (Recharge → Recharge) → Action (World P) (Unit {0})
  update_recharge id f db = update_row db.recharges (λ t. record db { recharges = t }) id f db

  abbrev pub update_coupon : ℕ → (Coupon → Coupon) → Action (World P) (Unit {0})
  update_coupon id f db = update_row db.coupons (λ t. record db { coupons = t }) id f db

  abbrev pub update_monthly_sales :
      ℕ → (InfluencerMonthlySales → InfluencerMonthlySales) → Action (World P) (Unit {0})
  update_monthly_sales id f db =
      update_row db.monthly_sales (λ t. record db { monthly_sales = t }) id f db

  abbrev pub update_bigo_recharge : ℕ → (BigoRecharge → BigoRecharge) → Action (World P) (Unit {0})
  update_bigo_recharge id f db =
      update_row db.bigo_recharges (λ t. record db { bigo_recharges = t }) id f db

  abbrev pub create_monthly_sales : InfluencerMonthlySales → Action (World P) ℕ
  create_monthly_sales r db =
      let (id, t) = P.create db.monthly_sales r in (ok id, record db { monthly_sales = t })

  -- `seqid` and `buOrderId` are unique.
  abbrev pub create_bigo_recharge : BigoRecharge → Action (World P) ℕ
  create_bigo_recharge r db =
      let (id, t) = P.create db.bigo_recharges r in
      on_option (ok id, record db { bigo_recharges = t }) (λ _. (err (client_error p2002), db))
        (head? (P.find_many db.bigo_recharges (clashes r)))

  -- `upsert` by a unique key: the row that passes the test is updated, or else one is created.
  abbrev pub upsert_row : {R : Type 0} → P.Table R → (R → Bool) → R → (R → R) → P.Table R
  upsert_row t test new f =
      on_option ((P.create t new).1) (λ e. P.update t e.0 f) (head? (P.find_many t test))
