-- ===== src/Db.antt =====
-- crates/rustify-db: the repositories, each a function on the rows of its tables.
pub mod Deployments
pub mod Teams
pub mod Previews
pub mod ScheduledTasks
pub mod Backups
mod Tests
