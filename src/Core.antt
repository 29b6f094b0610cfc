-- ===== src/Core.antt =====
-- crates/rustify-core: the pure parts that the other crates share.
pub mod Status
pub mod Role
pub mod Retention
pub mod Webhook
pub mod DbEngine
pub mod Redact
pub mod Cron
