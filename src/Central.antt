-- ===== src/Central.antt =====
-- crates/fs0-central/src: the central service.
pub mod Types
pub mod Leases
pub mod Dirs
pub mod Volumes
pub mod Replicas
pub mod FileBundles
pub mod Files
pub mod Events
pub mod Server
pub mod StorageRequests
pub mod Updates
pub mod ClientRequests
