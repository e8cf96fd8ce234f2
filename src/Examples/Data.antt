-- ===== src/Examples/Data.antt =====
-- A small shop: one order with its payment, recharge and coupon, and a log of two Bigo calls.
use recharge_plataform_api.Prelude.{
  ℕ, zero, suc, ◌+◌, ◌*◌, ◌/◌, ◌%◌, ◌-◌, ◌≤◌, arith, ◌≡◌, refl, none, some, [], ◌∷◌, true,
}
use recharge_plataform_api.Prelude.Int.{pos}
use recharge_plataform_api.Prelude.Text.{codes}
use recharge_plataform_api.Prisma.Memory.{row, memory}
use recharge_plataform_api.Utils.Calendar.{Calendar}
use recharge_plataform_api.Schema.{
  Order, created, Payment, payment_pending, Recharge, recharge_pending, Coupon,
  InfluencerMonthlySales, RequestBody, BigoRecharge, rs_recharge, disable, retry_pending,
}
use recharge_plataform_api.Database.{World}
use recharge_plataform_api.Bigo.Request.{Exchange, answered}
use recharge_plataform_api.Order.Coupon.{Money}
use recharge_plataform_api.Bravive.Handlers.{Outside}

-- Months of thirty days.
abbrev pub calendar : Calendar
calendar = record {
  month_of = λ t. t / 2592000000 % 12 + 1;
  year_of = λ t. t / 31104000000 + 1970;
  start_of_day = λ t. t - t % 86400000;
  end_of_day = λ t. t - t % 86400000 + 86399999;
  start_of_month = λ y m. (y - 1970) * 31104000000 + (m - 1) * 2592000000;
  end_of_month = λ y m. (y - 1970) * 31104000000 + m * 2592000000 - 1;
}

abbrev pub answering : Exchange
answering = record {
  signature_error = none;
  primary = answered (record { rescode = 0; message = some (codes "ok") });
  backup = none;
}

abbrev pub limited : Exchange
limited = record {
  signature_error = none;
  primary = answered (record { rescode = 7212012; message = none });
  backup = none;
}

abbrev pub out : Outside
out = record {
  calendar = calendar;
  now = 90000000;
  seqid = codes "s3";
  bigo = answering;
  cost_of = λ n. n * 3;
}

abbrev pub order : Order
order = record {
  order_number = codes "20240101";
  price = 900;
  base_price = 1000;
  order_status = created;
  payment_id = 0;
  product_id = 5;
  recharge_id = 0;
  package_id = 2;
  created_at = 1000;
  store_id = 7;
  user_id = 4;
}

abbrev pub payment : Payment
payment = record {
  name = codes "Pix";
  status = payment_pending;
  status_updated_at = none;
  qr_code = some (codes "qr");
  qr_codetext_copy_paste = some (codes "text");
  bravive_id = some (codes "b1");
  payment_provider = some (codes "bravive");
}

abbrev pub recharge : Recharge
recharge = record {
  user_id_for_recharge = codes "u1";
  status = recharge_pending;
  amount_credits = 60;
  status_updated_at = none;
}

abbrev pub coupon : Coupon
coupon = record {
  title = codes "TEN";
  discount_percentage = some 1000;
  discount_amount = none;
  expires_at = none;
  times_used = pos 3;
  total_sales_amount = pos 2700;
  max_uses = some 10;
  min_order_amount = some 500;
  is_active = true;
  store_id = 7;
  influencer_id = 6;
  is_first_purchase = true;
  is_one_time_per_bigo_id = true;
  deleted_at = none;
}

abbrev pub month : InfluencerMonthlySales
month = record { influencer_id = 6; month = 1; year = 1970; total_sales = pos 2700 }

abbrev pub body : RequestBody
body = record {
  recharge_bigoid = some (codes "u1");
  bu_orderid = some (codes "n0");
  value = some 60;
  total_cost = some 180;
  currency = some (codes "BRL");
  seqid = some (codes "s1");
}

abbrev pub sent : BigoRecharge
sent = record {
  seqid = codes "s1";
  bu_order_id = some (codes "n0");
  endpoint = rs_recharge;
  status = retry_pending;
  rescode = some 7212012;
  message = none;
  request_body = body;
  response_body = none;
  attempts = 1;
  next_retry = some 5000;
}

abbrev pub disabled : BigoRecharge
disabled = record sent {
  seqid = codes "s2";
  bu_order_id = none;
  endpoint = disable;
  request_body = record body { seqid = some (codes "s2") };
}

abbrev pub shop : World memory
shop = record {
  orders = some order ∷ [];
  payments = some payment ∷ [];
  recharges = some recharge ∷ [];
  package_infos = [];
  coupons = some coupon ∷ [];
  coupon_usages = some (record { coupon_id = 0; order_id = 0 }) ∷ [];
  monthly_sales = some month ∷ [];
  bigo_recharges = some sent ∷ some disabled ∷ [];
  users = [];
  daily_sales = [];
  store_monthly_sales = [];
  product_sales = [];
  stores = [];
  packages = [];
  payment_methods = [];
  influencers = [];
  featured_coupons = [];
  cron_executions = [];
  timers = [];
  next_handle = 0;
  retry_timeouts = [];
  outbox = [];
  verified_events = [];
}

-- A table of one row.
pub only_row : {R : Type 0} (r : R) (j : ℕ) (s : R) → row (some r ∷ []) j ≡ some s → j ≡ 0
only_row r zero s h = refl
only_row r (suc j) s h = cc h

-- To the nearest, by an exact division.
pub half_up_low : (n : ℕ) → n ≤ 10000 * ((n + 5000) / 10000) + 5000
half_up_low n = omega arith

pub half_up_high : (n : ℕ) → 10000 * ((n + 5000) / 10000) ≤ n + 5000
half_up_high n = omega arith

abbrev pub money : Money
money = record {
  to_cents = λ n. (n + 5000) / 10000;
  decimal_text = λ n. [];
  to_cents_low = half_up_low;
  to_cents_high = half_up_high;
}
