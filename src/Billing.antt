-- ===== src/Billing.antt =====
-- Orders and payment callbacks: modules/billing and common/money.
pub mod Orders
pub mod Signature
pub mod Callback
pub mod Trade
pub mod Payment
pub mod Idempotence
pub mod Status
pub mod Refund
