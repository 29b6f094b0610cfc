-- ===== src/Deploy.antt =====
-- crates/rustify-deploy: the deploy engine.
pub mod Host
pub mod Engine
pub mod Rolling
pub mod Envfile
pub mod ScheduledTask
pub mod BuildServer
pub mod Backup
pub mod StatusSync
pub mod Preview
mod Tests
