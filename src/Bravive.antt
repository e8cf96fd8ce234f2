-- ===== src/Bravive.antt =====
-- src/bravive: payments of the Bravive provider, their webhooks and the manual status check.
pub mod Status
pub mod Handlers
pub mod Webhook
pub mod Frame
pub mod Approval
pub mod Included
pub mod Payments
pub mod Once
pub mod Refund
pub mod Manual
