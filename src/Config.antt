-- ===== src/Config.antt =====
-- The configuration: common/config and infrastructure/redis/redis.config.ts.
pub mod Env
pub mod Schema
pub mod Secrets
pub mod RedisOptions
pub mod Backoff
