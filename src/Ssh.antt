-- ===== src/Ssh.antt =====
-- crates/rustify-ssh: the transport to the servers.
pub mod Retry
pub mod Command
mod Tests
