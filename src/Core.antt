-- ===== src/Core.antt =====
-- crates/fs0-core: errors, hashes, wire types, conversions and paths.
pub mod Error
pub mod Exec
pub mod Hash
pub mod Constants
pub mod Protocol
pub mod Compression
pub mod Convert
pub mod Paths
