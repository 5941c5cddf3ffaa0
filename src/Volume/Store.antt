-- ===== src/Volume/Store.antt =====
-- The operations of crates/fs0-volume/src/volume.rs. `put_chunk` holds the database lock twice,
-- around the write of the bytes: `reserve` and `insert_and_load` are its two critical sections.
pub mod Placement
pub mod Integrity
pub mod Roundtrip
pub mod Bundles
pub mod Changes
pub mod Opening
use fs.Prelude.{
  ℕ, suc, ◌+◌, ◌-◌, ◌*◌, ◌/◌, ◌%◌, Bool, true, false, not, ◌&&◌, ◌||◌, Option, none, some, List, [],
  ◌∷◌, length, map, ltb, num_eq, any, if◌then◌else◌,
}
use fs.Prelude.Rows.{find}
use fs.Core.Hash.{HashId, hash_eq, blake3_hash, concat_ids}
use fs.Core.Error.{
  Text, Fs0Error, Fs0Result, ok, err, lit, num, invalid_data, invalid_config, already_exists,
  volume_not_found, integer_conversion, capacity_exceeded, hash_mismatch, chunk_not_found,
  bundle_not_found,
}
use fs.Core.Convert.{checked_add}
use fs.Core.Exec.{Exec, pure, raise, lift, gets, modify, reject, ◌>>=◌, ◌>>◌}
use fs.Core.Constants.{volume_default_data_file_size, volume_format_version}
use fs.Core.Protocol.{BundleChunkRef, BundleReplicaEvent}
use fs.Volume.Types.{VolumeMeta, ChunkMeta, BundleMeta, Tables, VolumeDb}
use fs.Volume.Db.{
  create, open_db, assign_volume_id, has_chunk_id, load_chunk, load_chunks_by_ids, load_bundle,
  insert_chunk, reserve_active_volume_offset, delete_chunk, commit_bundle_db, delete_bundle,
  list_bundle_chunks_db, get_bundle_change_records, remove_bundle_change_records,
}
use fs.Volume.Disk.{Disk, Os}
use fs.Volume.DataFiles.{DataFiles, with_capacity, write_file, read_file}

pub record Volume : Type 0 where
  pub db : VolumeDb
  pub files : DataFiles

-- `init_fs` and `init_volume_id` on the database file of a volume's root, `none` while there is no
-- file; `db_path` is its path, as it is shown in the errors.
unfoldable pub init_fs : Text → ℕ → ℕ → Exec (Option Tables) (Unit {0})
unfolding create
init_fs db_path max_bytes now = do
  reject (ltb max_bytes volume_default_data_file_size)
      (invalid_config (lit "max_bytes must be at least 4GB" ∷ []))
  file ← gets (λ file. file)
  reject (elim file [ none ↦ false | some _ ↦ true ]) (already_exists db_path)
  _ ← create (record {
    volume_id = 0;
    format_version = volume_format_version;
    max_bytes = max_bytes;
    active_volume_offset = 0;
    created_at_ms = now;
    updated_at_ms = now;
  })
  pure tt

-- Run an action of the opened database on the file.
abbrev pub on_file : {A : Type 0} → Exec VolumeDb A → VolumeDb → Fs0Result A × Option Tables
on_file m db = let (r, db') = m db in (r, some db'.conn)

abbrev with_file :
    {A : Type 0} → Text → Exec VolumeDb A → Option Tables → Fs0Result A × Option Tables
with_file db_path m none = (err (volume_not_found db_path), none)
with_file db_path m (some conn) = elim (open_db conn) [
  | err e ↦ (err e, some conn)
  | ok db ↦ on_file m db
]

unfoldable pub init_volume_id : Text → ℕ → ℕ → Exec (Option Tables) VolumeMeta
unfolding open_db assign_volume_id
init_volume_id db_path volume_id now = with_file db_path (assign_volume_id volume_id now)

-- `max_bytes.div_ceil(VOLUME_DEFAULT_DATA_FILE_SIZE)`
abbrev pub div_ceil : ℕ → ℕ → ℕ
div_ceil a b = a / b + (if num_eq (a % b) 0 then 0 else 1)

unfoldable pub open_volume : Text → Option Tables → Disk → Fs0Result Volume
unfolding open_db
open_volume db_path none disk = err (volume_not_found db_path)
open_volume db_path (some conn) disk = elim (open_db conn) [
  | err e ↦ err e
  | ok db ↦ ok (record {
    db = db;
    files = with_capacity (div_ceil db.meta.max_bytes volume_default_data_file_size) disk;
  })
]

abbrev pub on_db : {A : Type 0} → Exec VolumeDb A → Exec Volume A
on_db m v = let (r, db) = m v.db in (r, record v { db = db })

abbrev pub on_files : {A : Type 0} → Exec DataFiles A → Exec Volume A
on_files m v = let (r, files) = m v.files in (r, record v { files = files })

-- What the first critical section of `put_chunk` returns: the chunk that is there already, or the
-- metadata of a new one, with its place reserved.
pub data Reservation : Type 0 where
  existing : ChunkMeta → Reservation
  reserved : ChunkMeta → Reservation

-- Where a chunk of `len` bytes goes: at the active offset, or at the start of the next data file if
-- it would cross the end of this one.
unfoldable pub place : ℕ → ℕ → ℕ
place active len =
    if ltb volume_default_data_file_size (active % volume_default_data_file_size + len)
    then (active / volume_default_data_file_size + 1) * volume_default_data_file_size
    else active

abbrev pub offset_overflow : Fs0Error
offset_overflow = integer_conversion (lit "volume offset overflow" ∷ [])

-- The branch of `put_chunk` for a chunk that is not there.
unfoldable pub reserve_new : HashId → HashId → ℕ → ℕ → ℕ → Exec VolumeDb Reservation
unfolding place reserve_active_volume_offset
reserve_new chunk_id compressed_hash raw_len len now = do
  meta ← gets (λ db. db.meta)
  let volume_offset : ℕ = place meta.active_volume_offset len
  next ← lift (checked_add volume_offset len offset_overflow)
  reject (ltb meta.max_bytes next) (capacity_exceeded next meta.max_bytes)
  _ ← reserve_active_volume_offset next now
  pure (
      reserved (record {
        chunk_id = chunk_id;
        compressed_hash = compressed_hash;
        volume_offset = volume_offset;
        raw_len = raw_len;
        compressed_len = len;
      }))

-- The first critical section: the stored chunk, if it is the same one, or a new place.
unfoldable pub reserve : HashId → HashId → ℕ → ℕ → ℕ → Exec VolumeDb Reservation
unfolding reserve_new
reserve chunk_id compressed_hash raw_len len now db =
    elim (find (has_chunk_id chunk_id) db.conn.chunks) [
      | some chunk ↦
          if not (num_eq chunk.raw_len raw_len)
            || not (num_eq chunk.compressed_len len)
            || not (hash_eq chunk.compressed_hash compressed_hash)
          then (err (hash_mismatch chunk.volume_offset), db)
          else (ok (existing chunk), db)
      | none ↦ reserve_new chunk_id compressed_hash raw_len len now db
    ]

-- The second critical section.
unfoldable pub insert_and_load : ChunkMeta → Exec VolumeDb ChunkMeta
unfolding insert_chunk load_chunk
insert_and_load insert = do
  insert_chunk insert
  db ← gets (λ db. db)
  lift (load_chunk insert.chunk_id db)

-- `chunk.chunk_index != expected_index`, from the index on
unfoldable pub contiguous_from : ℕ → List BundleChunkRef → Bool
contiguous_from i [] = true
contiguous_from i (c ∷ cs) = num_eq c.chunk_index i && contiguous_from (suc i) cs

abbrev pub chunk_ids : List BundleChunkRef → List HashId
chunk_ids = map λ c. c.chunk_id

-- The first chunk of the list that is not among the loaded rows.
unfoldable pub first_missing : List ChunkMeta → List BundleChunkRef → Option HashId
first_missing rows [] = none
first_missing rows (c ∷ cs) =
    if any (has_chunk_id c.chunk_id) rows then first_missing rows cs else some c.chunk_id

abbrev require_chunks : List BundleChunkRef → Exec VolumeDb (Unit {0})
require_chunks chunks db = elim (first_missing (load_chunks_by_ids (chunk_ids chunks) db) chunks) [
  | some chunk_id ↦ (err (chunk_not_found chunk_id), db)
  | none ↦ (ok tt, db)
]

-- The critical section of `commit_bundle`.
unfoldable pub commit_new : HashId → List BundleChunkRef → Exec VolumeDb BundleMeta
unfolding load_bundle first_missing load_chunks_by_ids commit_bundle_db
commit_new bundle_id chunks db = elim (load_bundle bundle_id db) [
  | ok present ↦ (ok present, db)
  | err (bundle_not_found _) ↦ (do require_chunks chunks; commit_bundle_db bundle_id chunks) db
  | err e ↦ (err e, db)
]

abbrev pub is_nil {ℓ} : {A : Type ℓ} → List A → Bool
is_nil [] = true
is_nil (x ∷ xs) = false

module _ (blake3 : List ℕ → List ℕ) where
  unfoldable pub bundle_hash_from_chunks : List BundleChunkRef → HashId
  unfolding concat_ids
  bundle_hash_from_chunks chunks = record { bytes = blake3 (concat_ids (chunk_ids chunks)) }

  unfoldable pub commit_bundle : HashId → List BundleChunkRef → Exec VolumeDb BundleMeta
  unfolding contiguous_from bundle_hash_from_chunks commit_new
  commit_bundle bundle_id chunks = do
    reject (is_nil chunks) (invalid_data (lit "bundle must contain at least one chunk" ∷ []))
    reject (not (contiguous_from 0 chunks))
        (invalid_data (lit "bundle chunk indexes must be contiguous" ∷ []))
    reject (not (hash_eq (bundle_hash_from_chunks chunks) bundle_id))
        (invalid_data (lit "bundle id does not match committed chunk ids" ∷ []))
    commit_new bundle_id chunks

unfoldable pub list_bundle_chunks : HashId → VolumeDb → Fs0Result (List BundleChunkRef)
unfolding list_bundle_chunks_db
list_bundle_chunks bundle_id db =
    let chunks = list_bundle_chunks_db bundle_id db in
    if is_nil chunks then err (bundle_not_found bundle_id) else ok chunks

module _ (os : Os) where
  -- `write_compressed_bytes` and `read_compressed_bytes`; `usize` has 64 bits.
  unfoldable pub write_compressed_bytes : ℕ → List ℕ → ℕ → Exec Volume (Unit {0})
  unfolding write_file
  write_compressed_bytes volume_offset bytes now = on_files (
      write_file os (volume_offset / volume_default_data_file_size)
        (volume_offset % volume_default_data_file_size) bytes now)

  unfoldable pub read_compressed_bytes : ℕ → ℕ → ℕ → Exec Volume (List ℕ)
  unfolding read_file
  read_compressed_bytes volume_offset compressed_len now = on_files (
      read_file os (volume_offset / volume_default_data_file_size)
        (volume_offset % volume_default_data_file_size) compressed_len now)

  -- The rest of `put_chunk` after the first critical section.
  unfoldable pub finish_put : List ℕ → ℕ → Reservation → Exec Volume ChunkMeta
  unfolding write_compressed_bytes insert_and_load
  finish_put bytes now (existing chunk) = pure chunk
  finish_put bytes now (reserved chunk) = do
    write_compressed_bytes chunk.volume_offset bytes now
    on_db (insert_and_load chunk)

  unfoldable pub read_chunk : HashId → ℕ → Exec Volume (ChunkMeta × List ℕ)
  unfolding load_chunk read_compressed_bytes
  read_chunk chunk_id now = do
    db ← gets (λ v. v.db)
    chunk ← lift (load_chunk chunk_id db)
    bytes ← read_compressed_bytes chunk.volume_offset chunk.compressed_len now
    pure (chunk, bytes)

module _ (os : Os) (blake3 : List ℕ → List ℕ) where
  unfoldable pub put_chunk : HashId → ℕ → List ℕ → ℕ → Exec Volume ChunkMeta
  unfolding blake3_hash reserve finish_put
  put_chunk chunk_id raw_len compressed_bytes now = do
    reject (num_eq raw_len 0) (invalid_data (lit "raw_len must be greater than zero" ∷ []))
    reject (is_nil compressed_bytes) (invalid_data (lit "compressed_bytes cannot be empty" ∷ []))
    reject (ltb volume_default_data_file_size (length compressed_bytes)) (
        invalid_data (
          lit "compressed chunk length "
          ∷ num (length compressed_bytes)
          ∷ lit " exceeds data file size "
          ∷ num volume_default_data_file_size
          ∷ []))
    reservation ← on_db (
        reserve chunk_id (blake3_hash blake3 compressed_bytes) raw_len (length compressed_bytes)
          now)
    finish_put os compressed_bytes now reservation
