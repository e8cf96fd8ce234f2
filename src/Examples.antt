-- ===== src/Examples.antt =====
-- The theorems at concrete inputs, on a database in memory.
mod Data
mod Tokens
mod Auth
mod Cron
mod Accounts
mod Coupons
mod Payments
mod Orders
mod Create
mod Recharges
mod Sales
mod Requests
