-- ===== src/Redis.antt =====
-- Redis: infrastructure/redis, common/idempotency and modules/auth/auth-login-security.service.ts.
pub mod Store
pub mod Locks
pub mod Idempotency
pub mod Interceptor
pub mod LoginSecurity
pub mod Connection
pub mod Business
pub mod Distinct
pub mod Progress
pub mod Mutual
pub mod Replay
pub mod Memory
