-- ===== src/Auth.antt =====
-- Accounts and tokens: modules/auth.
pub mod Client
pub mod Data
pub mod Service
pub mod Revocation
