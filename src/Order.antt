-- ===== src/Order.antt =====
-- src/order: coupon validation, coupon usage counters, creation and expiry of orders.
pub mod Usage
pub mod Expiry
pub mod Coupon
pub mod Number
pub mod Create
pub mod Request
pub mod Recent
