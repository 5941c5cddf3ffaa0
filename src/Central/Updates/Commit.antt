-- ===== src/Central/Updates/Commit.antt =====
-- `commit_update` and `abort_update` of crates/fs0-central/src/request_handlers/update.rs. The
-- readings of the clock are arguments.
pub mod Sizes
pub mod Done
use fs.Prelude.{
  ℕ, ◌+◌, Bool, true, false, not, Option, none, some, List, [], ◌∷◌, map, ltb, num_eq,
  if◌then◌else◌,
}
use fs.Prelude.Rows.{find}
use fs.Core.Error.{
  Text, Fs0Error, Fs0Result, ok, err, lit, num, invalid_request, version_conflict, chunk_not_ready,
  integer_conversion, ok_or,
}
use fs.Core.Convert.{checked_add}
use fs.Core.Exec.{Exec, pure, lift, gets, reject, ◌>>=◌, ◌>>◌}
use fs.Core.Protocol.{
  CommitUpdateRequest, CommittedBundle, FileRecord, FileChangeLogKind, created, updated,
}
use fs.Central.Types.{CentralDb, FileRow, LeaseRecord, BundleReplicaRow}
use fs.Central.Leases.{load_active_update_lease, active_update_lease_volume, delete_update_lease}
use fs.Central.Replicas.{get_bundle_replicas_by_id}
use fs.Central.FileBundles.{
  has_bundle, or_insert_all, upsert_file_bundles_by_file_id, calculate_size_by_file_id,
}
use fs.Central.Dirs.{CentralTx, on_inner}
use fs.Central.Dirs.Walk.{get_dir_path_by_id, file_record}
use fs.Central.Files.{get_file_by_id, update_file_after_update}
use fs.Central.Events.{insert_file_change_log}
use fs.Central.Server.{CentralServer, is_online_volume, on_central_tx}
use fs.Central.Updates.{revoked_at}
use fs.Central.Updates.Begin.{is_not_found}

abbrev pub expired : ℕ → ℕ → Fs0Error
expired lease_id file_id = version_conflict (
    lit "update lease "
    ∷ num lease_id
    ∷ lit " for file "
    ∷ num file_id
    ∷ lit " expired before commit"
    ∷ [])

abbrev pub file_changed : Fs0Error
file_changed = version_conflict (lit "file changed while update lease was active" ∷ [])

abbrev pub submitted_overflow : Fs0Error
submitted_overflow = integer_conversion (lit "submitted bundle raw size overflow" ∷ [])

-- `map_err`: a lease that is not found has expired.
abbrev pub or_expired : {A : Type 0} → ℕ → ℕ → Fs0Result A → Fs0Result A
or_expired lease_id file_id (ok a) = ok a
or_expired lease_id file_id (err e) =
    if is_not_found e then err (expired lease_id file_id) else err e

abbrev pub map_expired : {A : Type 0} → ℕ → ℕ → Exec CentralDb A → Exec CentralDb A
map_expired lease_id file_id m db = let (r, after) = m db in (or_expired lease_id file_id r, after)

abbrev pub same_length : BundleReplicaRow → CommittedBundle → Bool
same_length ready bundle = num_eq ready.raw_len bundle.raw_len

-- The loop over the submitted bundles, from the total so far on.
unfoldable pub submitted_size : List BundleReplicaRow → ℕ → List CommittedBundle → Exec CentralDb ℕ
submitted_size ready total [] = pure total
submitted_size ready total (b ∷ bs) = do
  stored ← lift (ok_or (find (has_bundle b.bundle_id) ready) chunk_not_ready)
  reject (not (same_length stored b)) invalid_request
  total ← lift (checked_add total b.raw_len submitted_overflow)
  submitted_size ready total bs

-- The checks of the lease and of the file.
unfoldable pub check_file : CommitUpdateRequest → ℕ → Exec CentralDb (LeaseRecord × FileRow)
check_file request now_load = do
  lease ←
      map_expired request.lease_id request.file_id
        (load_active_update_lease request.lease_id request.file_id now_load)
  reject (not (num_eq lease.base_size_bytes request.base_size)) file_changed
  reject (ltb request.new_size lease.offset_bytes) invalid_request
  file ← get_file_by_id lease.file_id
  reject (not (num_eq file.size_bytes request.base_size)) file_changed
  pure (lease, file)

-- The new bundles and the new size of the file.
unfoldable pub replace_bundles : CommitUpdateRequest → LeaseRecord → ℕ → Exec CentralDb FileRow
replace_bundles request lease now = do
  upsert_file_bundles_by_file_id lease.file_id request.bundles
  (final_raw, final_compressed) ← calculate_size_by_file_id lease.file_id
  reject (not (num_eq final_raw request.new_size)) invalid_request
  update_file_after_update lease.file_id request.new_size final_compressed now

-- The checks of the submitted bundles, and what follows them.
unfoldable pub store_bundles : CommitUpdateRequest → LeaseRecord → ℕ → Exec CentralDb FileRow
store_bundles request lease now = do
  db ← gets (λ db. db)
  let replicas = get_bundle_replicas_by_id (map (λ b. b.bundle_id) request.bundles) db
  submitted ← submitted_size (or_insert_all [] replicas) 0 request.bundles
  reject (not (num_eq submitted request.new_size)) invalid_request
  replace_bundles request lease now

abbrev pub kind_of_update : FileRow → FileChangeLogKind
kind_of_update file = if num_eq file.size_bytes 0 then created else updated

-- The entry in the log and the record of the file.
unfoldable pub log_and_record : LeaseRecord → FileRow → FileRow → ℕ → Exec CentralTx FileRecord
log_and_record lease file updated_file now = do
  file_dir ← get_dir_path_by_id file.dir_id
  on_inner (
      insert_file_change_log (kind_of_update file) (some (file_dir, file.name)) (some lease.file_id)
        now)
  file_record updated_file

-- The second transaction.
unfoldable pub commit_tx : CommitUpdateRequest → ℕ → ℕ → Exec CentralTx FileRecord
commit_tx request now now_load = do
  (lease, file) ← on_inner (check_file request now_load)
  updated_file ← on_inner (store_bundles request lease now)
  on_inner (delete_update_lease request.lease_id)
  log_and_record lease file updated_file now

abbrev pub storage_of_volume : ℕ → CentralServer → Option ℕ
storage_of_volume volume_id s = elim (find (is_online_volume volume_id) s.online_volumes) [
  | none ↦ none
  | some o ↦ some o.storage_id
]

-- The record of the file, and the storage server that the revocation goes to.
unfoldable pub commit_update :
    CommitUpdateRequest → ℕ → ℕ → ℕ → Exec CentralServer (FileRecord × Option ℕ)
commit_update request now_volume now now_load = do
  volume_id ← on_central_tx (
      on_inner (
        map_expired request.lease_id request.file_id
          (active_update_lease_volume request.lease_id request.file_id now_volume)))
  storage_id ← gets (storage_of_volume volume_id)
  file ← on_central_tx (commit_tx request now now_load)
  revoked ← gets (revoked_at storage_id)
  pure (file, revoked)

abbrev pub abort_tx : ℕ → ℕ → ℕ → Exec CentralDb ℕ
abort_tx lease_id file_id now = do
  volume_id ← active_update_lease_volume lease_id file_id now
  delete_update_lease lease_id
  pure volume_id

unfoldable pub abort_update : ℕ → ℕ → ℕ → Exec CentralServer (Option ℕ)
abort_update lease_id file_id now = do
  volume_id ← on_central_tx (on_inner (abort_tx lease_id file_id now))
  storage_id ← gets (storage_of_volume volume_id)
  gets (revoked_at storage_id)
