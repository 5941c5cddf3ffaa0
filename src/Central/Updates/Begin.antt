-- ===== src/Central/Updates/Begin.antt =====
-- `begin_update` of crates/fs0-central/src/request_handlers/update.rs. The readings of the clock are
-- arguments.
use fs.Prelude.{ℕ, ◌+◌, Bool, true, false, not, none, ltb, num_eq, if◌then◌else◌}
use fs.Core.Constants.{update_lease_ttl_ms}
use fs.Core.Error.{
  Fs0Error, Fs0Result, ok, err, not_found, invalid_request, already_exists, no_available_volume,
  ok_or,
}
use fs.Core.Exec.{Exec, pure, raise, lift, gets, reject, ◌>>=◌, ◌>>◌}
use fs.Core.Protocol.{BeginUpdateRequest, GrantUploadLeaseRequest, UpdateLease}
use fs.Central.Types.{CentralDb, FileRow}
use fs.Central.Leases.{
  create_update_lease, delete_expired_update_leases, delete_update_lease,
  file_has_active_update_lease,
}
use fs.Central.Dirs.{CentralTx, on_inner}
use fs.Central.Files.{get_file_by_path, create_file}
use fs.Central.Server.{CentralServer, on_central_tx, on_tx, storage_peers_snapshot}
use fs.Central.Updates.{GrantReply, search_storages, grant_upload_lease_to_specific_storage}

abbrev pub is_not_found : Fs0Error → Bool
is_not_found not_found = true
is_not_found _ = false

-- The `match` on the result of `get_file_by_path`: the file and its size before the update.
abbrev pub opened :
    BeginUpdateRequest → ℕ → Fs0Result FileRow × CentralTx → Fs0Result (FileRow × ℕ) × CentralTx
opened request now (ok file, tx) =
    (reject (ltb file.size_bytes request.offset) invalid_request >> pure (file, file.size_bytes)) tx
opened request now (err e, tx) =
    if is_not_found e
    then (do
      reject (not (num_eq request.offset 0)) not_found
      file ← create_file request.path now
      pure (file, 0))
        tx
    else (err e, tx)

unfoldable pub file_for_update : BeginUpdateRequest → ℕ → Exec CentralTx (FileRow × ℕ)
file_for_update request now tx = opened request now (get_file_by_path request.path tx)

-- The transaction on the tables, from the deletion of the expired leases on.
unfoldable pub lease_file : BeginUpdateRequest → ℕ → ℕ → FileRow → ℕ → Exec CentralDb UpdateLease
lease_file request volume_id now file base_size = do
  delete_expired_update_leases now
  leased ← file_has_active_update_lease file.file_id
  reject leased (already_exists request.path)
  create_update_lease (record {
    file_id = file.file_id;
    volume_id = volume_id;
    base_size_bytes = base_size;
    offset_bytes = request.offset;
    prefer_volume_name = request.prefer_volume_name;
    expires_at_ms = now + update_lease_ttl_ms;
    created_at_ms = now;
  })

unfoldable pub create_lease : BeginUpdateRequest → ℕ → ℕ → Exec CentralTx UpdateLease
unfolding file_for_update lease_file
create_lease request volume_id now = do
  (file, base_size) ← file_for_update request now
  on_inner (lease_file request volume_id now file base_size)

-- The `match` on the outcome of the grant.
abbrev pub granted_or_deleted : UpdateLease → Fs0Result (Unit {0}) → Exec CentralServer UpdateLease
granted_or_deleted lease (ok u) = pure lease
granted_or_deleted lease (err e) = do on_tx (delete_update_lease lease.lease_id); raise e

module _ (rpc : ℕ → GrantUploadLeaseRequest → Fs0Result GrantReply) where
  unfoldable pub begin_update_on : BeginUpdateRequest → ℕ → ℕ × ℕ → Exec CentralServer UpdateLease
  begin_update_on request now (storage_id, volume_id) = do
    lease ← on_central_tx (create_lease request volume_id now)
    outcome ← gets (grant_upload_lease_to_specific_storage rpc storage_id lease)
    granted_or_deleted lease outcome

module _ (over_threshold : ℕ → ℕ → Bool)
    (rpc : ℕ → GrantUploadLeaseRequest → Fs0Result GrantReply) where
  unfoldable pub begin_update : BeginUpdateRequest → ℕ → Exec CentralServer UpdateLease
  begin_update request now = do
    peers ← gets storage_peers_snapshot
    candidate ← lift (
        ok_or (search_storages over_threshold request none peers)
          (no_available_volume request.prefer_volume_name request.update_size_hint))
    begin_update_on rpc request now candidate
