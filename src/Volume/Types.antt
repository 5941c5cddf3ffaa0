-- ===== src/Volume/Types.antt =====
-- The structs of crates/fs0-volume/src/volume.rs and the tables of crates/fs0-volume/src/schema.sql.
use fs.Prelude.{ℕ, Option, none, List, []}
use fs.Core.Hash.{HashId}
use fs.Core.Protocol.{BundleReplicaEventKind}

pub record VolumeMeta : Type 0 where
  pub volume_id : ℕ
  pub format_version : ℕ
  pub max_bytes : ℕ
  pub active_volume_offset : ℕ
  pub created_at_ms : ℕ
  pub updated_at_ms : ℕ

-- A row of `chunks` has the same columns.
pub record ChunkMeta : Type 0 where
  pub chunk_id : HashId
  pub compressed_hash : HashId
  pub volume_offset : ℕ
  pub raw_len : ℕ
  pub compressed_len : ℕ

pub record BundleMeta : Type 0 where
  pub bundle_id : HashId
  pub raw_len : ℕ
  pub compressed_len : ℕ
  pub chunk_count : ℕ

pub record BundleChunkRow : Type 0 where
  pub bundle_id : HashId
  pub chunk_index : ℕ
  pub chunk_id : HashId

-- The column `event_type` has two texts, which are the two kinds.
pub record ChangeRecordRow : Type 0 where
  pub event_id : ℕ
  pub kind : BundleReplicaEventKind
  pub bundle_id : HashId

-- The database file. `volume_meta` holds at most the row with id 1; `last_event_id` is the counter
-- behind AUTOINCREMENT.
pub record Tables : Type 0 where
  pub volume_meta : Option VolumeMeta
  pub chunks : List ChunkMeta
  pub bundle_chunks : List BundleChunkRow
  pub bundle_change_records : List ChangeRecordRow
  pub last_event_id : ℕ

-- schema.sql, run on a new file
abbrev pub empty_tables : Tables
empty_tables = record {
  volume_meta = none;
  chunks = [];
  bundle_chunks = [];
  bundle_change_records = [];
  last_event_id = 0;
}

-- The struct of crates/fs0-volume/src/db.rs: the connection and the meta row as last read.
pub record VolumeDb : Type 0 where
  pub conn : Tables
  pub meta : VolumeMeta
