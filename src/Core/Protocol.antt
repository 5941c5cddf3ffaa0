-- ===== src/Core/Protocol.antt =====
-- The wire types of crates/fs0-core/src/protocol.rs that the modelled services exchange.
use fs.Prelude.{ℕ, Bool, Option, List}
use fs.Core.Error.{Text}
use fs.Core.Hash.{HashId}

pub record BundleChunkRef : Type 0 where
  pub chunk_index : ℕ
  pub chunk_id : HashId

pub record UploadChunkRequest : Type 0 where
  pub volume_id : ℕ
  pub lease_id : ℕ
  pub file_id : ℕ
  pub chunk_id : HashId
  pub raw_len : ℕ
  pub compressed_bytes : List ℕ

pub record DownloadChunkRequest : Type 0 where
  pub volume_id : ℕ
  pub chunk_id : HashId

pub record UploadChunkResponse : Type 0 where
  pub chunk_id : HashId
  pub raw_len : ℕ
  pub compressed_len : ℕ

pub record ReplicaLocation : Type 0 where
  pub storage_id : ℕ
  pub volume_id : ℕ

pub record FileBundleRef : Type 0 where
  pub bundle_index : ℕ
  pub raw_len : ℕ
  pub compressed_len : ℕ
  pub bundle_id : HashId
  pub replicas : List ReplicaLocation

pub record FileReadPlan : Type 0 where
  pub file_id : ℕ
  pub path : Text
  pub size : ℕ
  pub bundles : List FileBundleRef

pub record StorageVolumeInfo : Type 0 where
  pub volume_id : ℕ
  pub name : Text
  pub max_bytes : ℕ
  pub max_volume_offset : ℕ
  pub read_only : Bool

pub record StoragePeerInfo : Type 0 where
  pub storage_id : ℕ
  pub name : Text
  pub volumes : List StorageVolumeInfo
  pub iroh_endpoint : List ℕ

pub record FileRecord : Type 0 where
  pub file_id : ℕ
  pub path : Text
  pub size_bytes : ℕ
  pub compressed_size_bytes : ℕ
  pub created_at_ms : ℕ
  pub updated_at_ms : ℕ

pub record DirectoryEntry : Type 0 where
  pub name : Text
  pub path : Text
  pub file_id : ℕ
  pub size_bytes : ℕ
  pub compressed_size_bytes : ℕ
  pub created_at_ms : ℕ
  pub updated_at_ms : ℕ

pub record DirectoryEntries : Type 0 where
  pub entries : List DirectoryEntry
  pub next_cursor : Option ℕ

pub record BeginUpdateRequest : Type 0 where
  pub path : Text
  pub offset : ℕ
  pub prefer_volume_name : Option Text
  pub update_size_hint : Option ℕ

pub record GrantUploadLeaseRequest : Type 0 where
  pub lease_id : ℕ
  pub file_id : ℕ
  pub volume_id : ℕ
  pub base_size : ℕ
  pub expires_at_ms : ℕ
  pub prefer_volume_name : Option Text

pub record UpdateLease : Type 0 where
  pub lease_id : ℕ
  pub file_id : ℕ
  pub volume_id : ℕ
  pub base_size : ℕ
  pub offset : ℕ
  pub expires_at_ms : ℕ
  pub prefer_volume_name : Option Text

pub record CommittedBundle : Type 0 where
  pub bundle_id : HashId
  pub raw_len : ℕ
  pub compressed_len : ℕ

pub record CommitUpdateRequest : Type 0 where
  pub lease_id : ℕ
  pub file_id : ℕ
  pub base_size : ℕ
  pub new_size : ℕ
  pub bundles : List CommittedBundle

pub data BundleReplicaEventKind : Type 0 where
  stored deleted : BundleReplicaEventKind

pub record BundleReplicaEvent : Type 0 where
  pub event_id : ℕ
  pub kind : BundleReplicaEventKind
  pub volume_id : ℕ
  pub bundle_id : HashId
  pub raw_len : Option ℕ
  pub compressed_len : Option ℕ

pub data FileChangeLogKind : Type 0 where
  created updated moved deleted_file : FileChangeLogKind

pub record FileChangeLog : Type 0 where
  pub event_id : ℕ
  pub kind : FileChangeLogKind
  pub file_id : Option ℕ
  pub new_path : Option Text
  pub created_at_ms : ℕ

pub record FileChangeLogs : Type 0 where
  pub operations : List FileChangeLog
  pub next_event_id : Option ℕ
