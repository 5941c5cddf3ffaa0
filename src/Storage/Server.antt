-- ===== src/Storage/Server.antt =====
-- The state of crates/fs0-storage/src/server.rs, and its requests: request_handlers/control.rs, and
-- request_handlers/data.rs without the commit of a bundle, which waits for a report to the central
-- service. zstd is a parameter.
pub mod Uploads
use fs.Prelude.{
  ℕ, ◌+◌, ◌⊎◌, Bool, true, false, not, ◌&&◌, Option, none, some, List, [], ◌∷◌, ◌++◌, length, leb,
  num_eq, if◌then◌else◌, any,
}
use fs.Prelude.Rows.{find, delete, update}
use fs.Core.Error.{
  Message, Fs0Error, Fs0Result, ok, err, ok_or, lit, num, unauthorized, unknown_volume,
  invalid_data, hash_mismatch, chunk_not_found, bundle_not_found, integer_conversion,
}
use fs.Core.Compression.{zstd_decompress}
use fs.Core.Hash.{HashId, hash_eq, blake3_hash}
use fs.Core.Convert.{checked_add}
use fs.Core.Exec.{Exec, pure, lift, gets, modify, reject, ◌>>=◌, ◌>>◌}
use fs.Core.Protocol.{
  BundleChunkRef, GrantUploadLeaseRequest, UploadChunkRequest, UploadChunkResponse,
  DownloadChunkRequest,
}
use fs.Volume.Types.{ChunkMeta, VolumeDb}
use fs.Volume.Db.{load_chunk}
use fs.Volume.Disk.{Os}
use fs.Volume.Store.{Volume, put_chunk, read_chunk, list_bundle_chunks}

pub record UploadLeaseState : Type 0 where
  pub lease_id : ℕ
  pub file_id : ℕ
  pub volume_id : ℕ
  pub expires_at_ms : ℕ

pub record MountedVolume : Type 0 where
  pub volume_id : ℕ
  pub volume : Volume

-- A map is the list of its entries, each with its key.
pub record StorageServer : Type 0 where
  pub check_hash_before_write : Bool
  pub volumes : List MountedVolume
  pub upload_leases : List UploadLeaseState

abbrev pub has_mounted_id : ℕ → MountedVolume → Bool
has_mounted_id volume_id m = num_eq m.volume_id volume_id

abbrev pub has_upload_lease_id : ℕ → UploadLeaseState → Bool
has_upload_lease_id lease_id l = num_eq l.lease_id lease_id

abbrev pub is_over : ℕ → UploadLeaseState → Bool
is_over now l = leb l.expires_at_ms now

-- `server.volume(volume_id)?` and a method of the volume
unfoldable pub on_volume : {A : Type 0} → ℕ → Exec Volume A → Exec StorageServer A
on_volume volume_id m s = elim (find (has_mounted_id volume_id) s.volumes) [
  | none ↦ (err unknown_volume, s)
  | some e ↦
      let (r, v) = m e.volume in
      (
        r,
        record s {
          volumes = update (has_mounted_id volume_id) (λ e. record e { volume = v }) s.volumes;
        },
      )
]

unfoldable pub grant_upload_lease : GrantUploadLeaseRequest → Exec StorageServer ℕ
grant_upload_lease lease = do
  s ← gets (λ s. s)
  reject (not (any (has_mounted_id lease.volume_id) s.volumes)) unknown_volume
  let granted : UploadLeaseState = record {
    lease_id = lease.lease_id;
    file_id = lease.file_id;
    volume_id = lease.volume_id;
    expires_at_ms = lease.expires_at_ms;
  }
  modify (λ s. record s {
    upload_leases = delete (has_upload_lease_id lease.lease_id) s.upload_leases ++ (granted ∷ []);
  })
  pure lease.lease_id

unfoldable pub revoke_upload_lease : ℕ → Exec StorageServer (Unit {0})
revoke_upload_lease lease_id =
    modify (λ s. record s { upload_leases = delete (has_upload_lease_id lease_id) s.upload_leases })

-- Whether the lease of the id is one for the file and the volume.
abbrev pub covers : ℕ → ℕ → Option UploadLeaseState → Bool
covers file_id volume_id none = false
covers file_id volume_id (some l) = num_eq l.file_id file_id && num_eq l.volume_id volume_id

-- The first block of `upload_chunk`: expired leases go, and the lease named must be there.
unfoldable pub authorize : ℕ → ℕ → ℕ → ℕ → Exec StorageServer (Unit {0})
authorize lease_id file_id volume_id now = do
  modify (λ s. record s { upload_leases = delete (is_over now) s.upload_leases })
  s ← gets (λ s. s)
  reject (not (covers file_id volume_id (find (has_upload_lease_id lease_id) s.upload_leases)))
      unauthorized

module _ (os : Os) (blake3 : List ℕ → List ℕ) (decompress : List ℕ → ℕ → Message ⊎ List ℕ) where
  -- The check of the content, where it is configured.
  unfoldable pub check_content : UploadChunkRequest → Exec StorageServer (Unit {0})
  check_content request = do
    raw ← lift (zstd_decompress decompress request.compressed_bytes request.raw_len)
    reject (not (num_eq (length raw) request.raw_len)) (
        invalid_data (
          lit "decompressed chunk length "
          ∷ num (length raw)
          ∷ lit " does not match raw_len "
          ∷ num request.raw_len
          ∷ []))
    reject (not (hash_eq (blake3_hash blake3 raw) request.chunk_id)) (hash_mismatch 0)

  unfoldable pub check_if : Bool → UploadChunkRequest → Exec StorageServer (Unit {0})
  unfolding check_content
  check_if true request = check_content request
  check_if false request = pure tt

  -- `upload_chunk` after the lease was checked.
  unfoldable pub store_upload : UploadChunkRequest → ℕ → Exec StorageServer UploadChunkResponse
  unfolding check_if on_volume
  store_upload request later = do
    s ← gets (λ s. s)
    check_if s.check_hash_before_write request
    meta ←
        on_volume request.volume_id
          (put_chunk os blake3 request.chunk_id request.raw_len request.compressed_bytes later)
    pure (record {
      chunk_id = request.chunk_id;
      raw_len = meta.raw_len;
      compressed_len = meta.compressed_len;
    })

  -- `upload_chunk`; the clock is read for the lease and again for the write.
  unfoldable pub upload_chunk : UploadChunkRequest → ℕ → ℕ → Exec StorageServer UploadChunkResponse
  unfolding authorize store_upload
  upload_chunk request now later = do
    authorize request.lease_id request.file_id request.volume_id now
    store_upload request later

module _ (os : Os) where
  unfoldable pub download_chunk : DownloadChunkRequest → ℕ → Exec StorageServer (List ℕ)
  unfolding on_volume
  download_chunk request now = do
    (meta, bytes) ← on_volume request.volume_id (read_chunk os request.chunk_id now)
    pure bytes

-- `DataResponse::HasChunk` and `HasBundle`: the lengths, if it exists.
unfoldable pub has_chunk : ℕ → HashId → Exec StorageServer (Option (ℕ × ℕ))
has_chunk volume_id chunk_id s = elim (find (has_mounted_id volume_id) s.volumes) [
  | none ↦ (err unknown_volume, s)
  | some e ↦ elim (load_chunk chunk_id e.volume.db) [
    | ok meta ↦ (ok (some (meta.raw_len, meta.compressed_len)), s)
    | err (chunk_not_found id) ↦ (ok none, s)
    | err x ↦ (err x, s)
  ]
]

abbrev pub bundle_raw_overflow : Fs0Error
bundle_raw_overflow = integer_conversion (lit "bundle raw_len overflow" ∷ [])

abbrev pub bundle_compressed_overflow : Fs0Error
bundle_compressed_overflow = integer_conversion (lit "bundle compressed_len overflow" ∷ [])

-- The loop over the chunks of a bundle, from the lengths so far on.
unfoldable pub add_lengths : VolumeDb → ℕ → ℕ → List BundleChunkRef → Exec StorageServer (ℕ × ℕ)
add_lengths db raw_len compressed_len [] = pure (raw_len, compressed_len)
add_lengths db raw_len compressed_len (c ∷ cs) = do
  meta ← lift (load_chunk c.chunk_id db)
  raw_len ← lift (checked_add raw_len meta.raw_len bundle_raw_overflow)
  compressed_len ← lift (checked_add compressed_len meta.compressed_len bundle_compressed_overflow)
  add_lengths db raw_len compressed_len cs

unfoldable pub bundle_lengths : VolumeDb → HashId → Exec StorageServer (Option (ℕ × ℕ))
unfolding add_lengths
bundle_lengths db bundle_id s = elim (list_bundle_chunks bundle_id db) [
  | ok chunks ↦ (do lengths ← add_lengths db 0 0 chunks; pure (some lengths)) s
  | err (bundle_not_found id) ↦ (ok none, s)
  | err x ↦ (err x, s)
]

unfoldable pub has_bundle : ℕ → HashId → Exec StorageServer (Option (ℕ × ℕ))
unfolding bundle_lengths
has_bundle volume_id bundle_id s = elim (find (has_mounted_id volume_id) s.volumes) [
  | none ↦ (err unknown_volume, s)
  | some e ↦ bundle_lengths e.volume.db bundle_id s
]

unfoldable pub list_bundle_chunks_request : ℕ → HashId → Exec StorageServer (List BundleChunkRef)
list_bundle_chunks_request volume_id bundle_id s =
    elim (find (has_mounted_id volume_id) s.volumes) [
      | none ↦ (err unknown_volume, s)
      | some e ↦ (list_bundle_chunks bundle_id e.volume.db, s)
    ]
