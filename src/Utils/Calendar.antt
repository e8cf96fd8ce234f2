-- ===== src/Utils/Calendar.antt =====
-- The `Date` methods that depend on the time zone of the server: parameters. Instants are
-- milliseconds since the epoch.
use recharge_plataform_api.Prelude.{ℕ}

pub record Calendar : Type 0 where
  -- `date.getMonth() + 1` and `date.getFullYear()`
  pub month_of : ℕ → ℕ
  pub year_of : ℕ → ℕ
  -- `new Date(d.getFullYear(), d.getMonth(), d.getDate())`
  pub start_of_day : ℕ → ℕ
  -- `d.setHours(23, 59, 59, 999)`
  pub end_of_day : ℕ → ℕ
  -- `new Date(year, month - 1, 1)` and `new Date(year, month, 0, 23, 59, 59, 999)`
  pub start_of_month : ℕ → ℕ → ℕ
  pub end_of_month : ℕ → ℕ → ℕ
