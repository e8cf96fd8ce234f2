-- ===== src/Schema.antt =====
-- The rows of prisma/schema.prisma that the services work on. Amounts are whole cents, instants are
-- milliseconds since the epoch, and the generated ids are numbers. An `OrderItem` is created with
-- its order, one to one, and never changed, so its fields stand in the order's row.
mod Accounts
mod Sales
pub use Accounts.*
pub use Sales.*
use recharge_plataform_api.Prelude.{ℕ, Bool, false, Option, none, some, ◌||◌}
use recharge_plataform_api.Prelude.Int.{ℤ}
use recharge_plataform_api.Prelude.Text.{Text, text_eq}

pub data OrderStatus : Type 0 where
  created processing completed expired refounded : OrderStatus

pub data PaymentStatus : Type 0 where
  payment_pending payment_approved payment_rejected : PaymentStatus

pub data RechargeStatus : Type 0 where
  recharge_pending recharge_approved recharge_rejected : RechargeStatus

pub data BigoRechargeStatus : Type 0 where
  requested success failed retry_pending : BigoRechargeStatus

pub record Order : Type 0 where
  pub order_number : Text
  pub price : ℕ
  pub base_price : ℕ
  pub order_status : OrderStatus
  pub payment_id : ℕ
  pub product_id : ℕ
  pub recharge_id : ℕ
  pub package_id : ℕ
  pub created_at : ℕ
  pub store_id : ℕ
  pub user_id : ℕ

pub record Payment : Type 0 where
  pub name : Text
  pub status : PaymentStatus
  pub status_updated_at : Option ℕ
  pub qr_code : Option Text
  pub qr_codetext_copy_paste : Option Text
  pub bravive_id : Option Text
  pub payment_provider : Option Text

pub record Recharge : Type 0 where
  pub user_id_for_recharge : Text
  pub status : RechargeStatus
  pub amount_credits : ℕ
  pub status_updated_at : Option ℕ

-- The copy of a package that an order keeps.
pub record PackageInfo : Type 0 where
  pub package_id : ℕ
  pub name : Text
  pub user_id_for_recharge : Text
  pub img_card_url : Text

-- `discount_percentage` in hundredths of a percent, as `Decimal(5, 2)` holds it.
pub record Coupon : Type 0 where
  pub title : Text
  pub discount_percentage : Option ℕ
  pub discount_amount : Option ℕ
  pub expires_at : Option ℕ
  pub times_used : ℤ
  pub total_sales_amount : ℤ
  pub max_uses : Option ℕ
  pub min_order_amount : Option ℕ
  pub is_active : Bool
  pub store_id : ℕ
  pub influencer_id : ℕ
  pub is_first_purchase : Bool
  pub is_one_time_per_bigo_id : Bool
  pub deleted_at : Option ℕ

pub record CouponUsage : Type 0 where
  pub coupon_id : ℕ
  pub order_id : ℕ

pub record InfluencerMonthlySales : Type 0 where
  pub influencer_id : ℕ
  pub month : ℕ
  pub year : ℕ
  pub total_sales : ℤ

-- `date` is the instant of the local midnight.
pub record StoreDailySales : Type 0 where
  pub store_id : ℕ
  pub date : ℕ
  pub total_sales : ℕ
  pub total_orders : ℕ

pub record StoreMonthlySales : Type 0 where
  pub store_id : ℕ
  pub month : ℕ
  pub year : ℕ
  pub total_sales : ℕ
  pub total_orders : ℕ
  pub total_completed_orders : ℕ
  pub total_expired_orders : ℕ
  pub total_refunded_orders : ℕ
  pub new_customers : ℕ
  pub orders_with_coupon : ℕ
  pub orders_without_coupon : ℕ

pub record StoreMonthlySalesByProduct : Type 0 where
  pub store_id : ℕ
  pub product_id : ℕ
  pub month : ℕ
  pub year : ℕ
  pub total_sales : ℕ
  pub total_orders : ℕ

-- The endpoints of the Bigo API, which the column `endpoint` holds as paths.
pub data Endpoint : Type 0 where
  recharge_pre_check rs_recharge disable : Endpoint
  other_endpoint : Text → Endpoint

-- The JSON bodies that the services send to Bigo; `seqid` is the field that `bigo.service` adds.
pub record RequestBody : Type 0 where
  pub recharge_bigoid : Option Text
  pub bu_orderid : Option Text
  pub value : Option ℕ
  pub total_cost : Option ℕ
  pub currency : Option Text
  pub seqid : Option Text

-- What the Bigo API answers.
pub record BigoResponse : Type 0 where
  pub rescode : ℕ
  pub message : Option Text

pub record BigoRecharge : Type 0 where
  pub seqid : Text
  pub bu_order_id : Option Text
  pub endpoint : Endpoint
  pub status : BigoRechargeStatus
  pub rescode : Option ℕ
  pub message : Option Text
  pub request_body : RequestBody
  pub response_body : Option BigoResponse
  pub attempts : ℕ
  pub next_retry : Option ℕ

abbrev pub is_same_text : Option Text → Option Text → Bool
is_same_text (some s) (some t) = text_eq s t
is_same_text none t = false
is_same_text (some s) none = false

-- `seqid String @unique` and `buOrderId String? @unique`: null clashes with nothing.
abbrev pub clashes : BigoRecharge → BigoRecharge → Bool
clashes new old = text_eq new.seqid old.seqid || is_same_text new.bu_order_id old.bu_order_id
