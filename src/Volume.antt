-- ===== src/Volume.antt =====
-- crates/fs0-volume: a volume keeps compressed chunks in data files and their metadata in a database.
pub mod Types
pub mod Db
pub mod Disk
pub mod DataFiles
pub mod Store
