-- ===== src/Database/Actions.antt =====
-- Exceptions of the services, the database state, and actions with `do`, `try` and `$transaction`.
use recharge_plataform_api.Prelude.{
  ℕ, ◌≡◌, refl, ◌⊎◌, inl, inr, Bool, true, false, Option, none, some, List,
}
use recharge_plataform_api.Prelude.Text.{Text}
use recharge_plataform_api.Prisma.{Prisma, PrismaCode}
use recharge_plataform_api.Schema.{
  Order, Payment, Recharge, PackageInfo, Coupon, CouponUsage, InfluencerMonthlySales, BigoRecharge,
  User, StoreDailySales, StoreMonthlySales, StoreMonthlySalesByProduct, Store, Influencer,
  FeaturedCoupon, MetricsCronExecution, Mail, Package, PaymentMethod,
}

-- The exception classes of `@nestjs/common` that the services throw.
pub data HttpKind : Type 0 where
  bad_request forbidden not_found unauthorized : HttpKind

-- `js_error` is a plain `new Error(message)`.
pub data Error : Type 0 where
  http_exception : HttpKind → Text → Error
  prisma_error : PrismaCode → Text → Error
  js_error : Text → Error

-- `error.message`
abbrev pub message_of : Error → Text
message_of (http_exception k m) = m
message_of (prisma_error c m) = m
message_of (js_error m) = m

-- `error instanceof BadRequestException`
abbrev pub is_bad_request : Error → Bool
is_bad_request (http_exception HttpKind.bad_request m) = true
is_bad_request e = false

pub data Result (A : Type 0) : Type 0 where
  ok : A → Result A
  err : Error → Result A

abbrev pub is_ok : {A : Type 0} → Result A → Bool
is_ok (ok a) = true
is_ok (err e) = false

-- A callback that `setTimeout` has registered: `processSpecificRetry(rechargeId, attempt)`.
pub record Timer : Type 0 where
  pub handle : ℕ
  pub recharge_id : ℕ
  pub attempt : ℕ
  pub delay_ms : ℕ

-- The database, the timers that the runtime holds, `retryTimeouts` of `BigoRetryService` (recharge id
-- to handle), the mails that were sent, the last one first, and the addresses that
-- `SseConfirmEmailService` announced as verified.
pub record World (P : Prisma) : Type 0 where
  pub orders : P.Table Order
  pub payments : P.Table Payment
  pub recharges : P.Table Recharge
  pub package_infos : P.Table PackageInfo
  pub coupons : P.Table Coupon
  pub coupon_usages : P.Table CouponUsage
  pub monthly_sales : P.Table InfluencerMonthlySales
  pub bigo_recharges : P.Table BigoRecharge
  pub users : P.Table User
  pub daily_sales : P.Table StoreDailySales
  pub store_monthly_sales : P.Table StoreMonthlySales
  pub product_sales : P.Table StoreMonthlySalesByProduct
  pub stores : P.Table Store
  pub packages : P.Table Package
  pub payment_methods : P.Table PaymentMethod
  pub influencers : P.Table Influencer
  pub featured_coupons : P.Table FeaturedCoupon
  pub cron_executions : P.Table MetricsCronExecution
  pub timers : List Timer
  pub next_handle : ℕ
  pub retry_timeouts : List (ℕ × ℕ)
  pub outbox : List Mail
  pub verified_events : List Text

-- What was written stays written after a throw, unless a transaction takes it back.
abbrev pub Action : Type 0 → Type 0 → Type 0
Action S A = S → Result A × S

module _ {S A : Type 0} where
  abbrev pub pure : A → Action S A
  pure a s = (ok a, s)

  abbrev pub throw : Error → Action S A
  throw e s = (err e, s)

  -- Committed if the body returns, rolled back to `s` if it throws.
  abbrev pub settle : S → Result A × S → Result A × S
  settle s (ok a, s') = (ok a, s')
  settle s (err e, s') = (err e, s)

  -- `await this.prisma.$transaction(body)`
  abbrev pub transaction : Action S A → Action S A
  transaction body s = settle s (body s)

  abbrev pub handle_error : (Error → Action S A) → Result A × S → Result A × S
  handle_error handler (ok a, s) = (ok a, s)
  handle_error handler (err e, s) = handler e s

  -- `try { body } catch (error) { handler }`
  abbrev pub try_catch : Action S A → (Error → Action S A) → Action S A
  try_catch body handler s = handle_error handler (body s)

abbrev pub continue : {S A B : Type 0} → (A → Action S B) → Result A × S → Result B × S
continue f (ok a, s) = f a s
continue f (err e, s) = (err e, s)

infixl 5 ◌>>=◌ ◌>>◌
abbrev pub ◌>>=◌ : {S A B : Type 0} → Action S A → (A → Action S B) → Action S B
◌>>=◌ m f s = continue f (m s)

abbrev pub ◌>>◌ : {S A B : Type 0} → Action S A → Action S B → Action S B
m >> k = m >>= λ _. k

module _ {S : Type 0} where
  -- `if (c) { body }`
  abbrev pub when : Bool → Action S (Unit {0}) → Action S (Unit {0})
  when true body s = body s
  when false body s = (ok tt, s)

  -- `if (c) throw e`
  abbrev pub throw_if : Bool → Error → Action S (Unit {0})
  throw_if true e s = (err e, s)
  throw_if false e s = (ok tt, s)

pub Result-cases :
    {A : Type 0} (r : Result A) → ((a : A) × (r ≡ ok a)) ⊎ ((e : Error) × (r ≡ err e))
Result-cases (ok a) = inl (a, refl)
Result-cases (err e) = inr (e, refl)

-- A value for each case of an `Option`, as a function that waits on its argument.
abbrev pub on_option {ℓ} : {A : Type 0} {B : Type ℓ} → B → (A → B) → Option A → B
on_option b f none = b
on_option b f (some a) = f a
