-- ===== src/Client.antt =====
-- crates/fs0-client/src: the client.
pub mod Scheduler
