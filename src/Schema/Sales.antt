-- ===== src/Schema/Sales.antt =====
-- The rows of prisma/schema.prisma about influencers, featured coupons and the runs of the metrics cron.
use recharge_plataform_api.Prelude.{ℕ, Bool, Option}
use recharge_plataform_api.Prelude.Text.{Text}

pub record Influencer : Type 0 where
  pub name : Text
  pub email : Option Text
  pub phone : Option Text
  pub payment_method : Option Text
  pub payment_data : Option Text
  pub is_active : Bool
  pub store_id : ℕ

pub record FeaturedCoupon : Type 0 where
  pub coupon_id : ℕ
  pub store_id : ℕ

-- The texts that the column `status` holds: SUCCESS, FAILED, PARTIAL, PROCESSING, FAILED_PERMANENT.
pub data CronStatus : Type 0 where
  cron_success cron_failed cron_partial cron_processing cron_failed_permanent : CronStatus

pub record MetricsCronExecution : Type 0 where
  pub execution_date : ℕ
  pub status : CronStatus
  pub started_at : ℕ
  pub completed_at : Option ℕ
  pub stores_processed : ℕ
  pub stores_total : ℕ
  pub execution_time : Option ℕ
