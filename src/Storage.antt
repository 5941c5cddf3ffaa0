-- ===== src/Storage.antt =====
-- crates/fs0-storage/src: the storage server.
pub mod Server
