-- ===== src/Central/Types.antt =====
-- The tables of crates/fs0-central/src/schema.sql that the modelled statements read and write. A
-- table with an AUTOINCREMENT key keeps the last key that was given; `UNIQUE` and `FOREIGN KEY`
-- are checked where rows are written.
use fs.Prelude.{ℕ, Option, none, List, [], ◌∷◌}
use fs.Core.Protocol.{FileChangeLogKind}
use fs.Core.Error.{Text}
use fs.Core.Hash.{HashId}

pub record VolumeRow : Type 0 where
  pub volume_id : ℕ
  pub name : Text
  pub max_bytes : ℕ
  pub max_volume_offset : ℕ

-- `FileRow` of db/file.rs
pub record FileRow : Type 0 where
  pub file_id : ℕ
  pub dir_id : ℕ
  pub name : Text
  pub size_bytes : ℕ
  pub compressed_size_bytes : ℕ
  pub created_at_ms : ℕ
  pub updated_at_ms : ℕ

-- A row of `file_bundles`; `FileBundleRow` of db/file_bundle.rs without its file.
pub record FileBundleEntry : Type 0 where
  pub file_id : ℕ
  pub bundle_index : ℕ
  pub bundle_id : HashId

pub record FileBundleRow : Type 0 where
  pub bundle_index : ℕ
  pub bundle_id : HashId

-- `BundleReplicaRow` of db/bundle_replica.rs
pub record BundleReplicaRow : Type 0 where
  pub bundle_id : HashId
  pub volume_id : ℕ
  pub raw_len : ℕ
  pub compressed_len : ℕ

-- A row of `update_leases`.
pub record LeaseRow : Type 0 where
  pub lease_id : ℕ
  pub file_id : ℕ
  pub volume_id : ℕ
  pub base_size_bytes : ℕ
  pub offset_bytes : ℕ
  pub prefer_volume_name : Option Text
  pub expires_at_ms : ℕ
  pub created_at_ms : ℕ

-- `LeaseRecord` of db/lease.rs
pub record LeaseRecord : Type 0 where
  pub file_id : ℕ
  pub base_size_bytes : ℕ
  pub offset_bytes : ℕ

pub record CreateUpdateLease : Type 0 where
  pub file_id : ℕ
  pub volume_id : ℕ
  pub base_size_bytes : ℕ
  pub offset_bytes : ℕ
  pub prefer_volume_name : Option Text
  pub expires_at_ms : ℕ
  pub created_at_ms : ℕ

pub record DirRow : Type 0 where
  pub dir_id : ℕ
  pub parent_dir_id : Option ℕ
  pub name : Text

-- A row of `file_events`; the column `event_type` has four texts, which are the four kinds.
pub record FileEventRow : Type 0 where
  pub event_id : ℕ
  pub kind : FileChangeLogKind
  pub new_dir : Option Text
  pub new_name : Option Text
  pub file_id : Option ℕ
  pub created_at_ms : ℕ

pub record CentralDb : Type 0 where
  pub volumes : List VolumeRow
  pub volume_seq : ℕ
  pub dirs : List DirRow
  pub files : List FileRow
  pub file_seq : ℕ
  pub file_bundles : List FileBundleEntry
  pub bundle_replicas : List BundleReplicaRow
  pub update_leases : List LeaseRow
  pub lease_seq : ℕ
  pub file_events : List FileEventRow
  pub event_seq : ℕ

abbrev pub root_dir_id : ℕ
root_dir_id = 0

abbrev pub root_dir : DirRow
root_dir = record { dir_id = root_dir_id; parent_dir_id = none; name = [] }

-- schema.sql, run on a new file
abbrev pub empty_db : CentralDb
empty_db = record {
  volumes = [];
  volume_seq = 0;
  dirs = root_dir ∷ [];
  files = [];
  file_seq = 0;
  file_bundles = [];
  bundle_replicas = [];
  update_leases = [];
  lease_seq = 0;
  file_events = [];
  event_seq = 0;
}
