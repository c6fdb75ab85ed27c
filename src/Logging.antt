-- ===== src/Logging.antt =====
-- What is written to the logs: common/utils/log-redact.ts, common/interceptors and common/logger.
pub mod Redaction
pub mod Redacted
pub mod Visits
pub mod Access
pub mod Trail
pub mod Errors
