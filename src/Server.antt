-- ===== src/Server.antt =====
-- crates/rustify-server: the HTTP API.
pub mod Teams
pub mod Invitations
pub mod Webhooks
mod Tests
