-- ===== src/Examples/UpdateCases.antt =====
-- The theorems on updates, on a service with two storage servers.
use fs.Prelude.{
  bytes_eq, ℕ, refl, ◌*◌, ◌≤◌, ◌≡◌, ◌⊎◌, Bool, false, some, none, Option, [], ◌∷◌, ltb,
}
use fs.Prelude.Rows.{delete, order_by, select, update, find}
use fs.Core.Constants.{i64_mod}
use fs.Core.Error.{Fs0Error, Fs0Result, ok, err}
use fs.Core.Protocol.{
  BeginUpdateRequest, CommitUpdateRequest, FileRecord, GrantUploadLeaseRequest, StoragePeerInfo,
  StorageVolumeInfo, UpdateLease,
}
use fs.Core.Convert.{column}
use fs.Central.Files.{get_file_by_path, create_file, update_file_after_update}
use fs.Core.Paths.{split_fs0_path_dir_and_name, join_fs0_path}
use fs.Central.Dirs.Walk.{create_dir, get_dir_path_by_id, file_record}
use fs.Central.FileBundles.{upsert_file_bundles_by_file_id, calculate_size_by_file_id}
use fs.Central.Events.{insert_file_change_log}
use fs.Central.Types.{empty_db, VolumeRow}
use fs.Central.Leases.{
  active_update_lease_volume, delete_expired_update_leases, file_has_active_update_lease,
  create_update_lease, load_active_update_lease, delete_update_lease, has_lease_id,
}
use fs.Central.Dirs.{get_id, ensure_child_name_available, get_path, new_cache}
use fs.Central.Server.{on_central_tx, CentralServer, tx_of}
use fs.Central.Updates.{
  grant_upload_lease_to_specific_storage, GrantReply, granted, search_storages,
}
use fs.Central.Updates.Begin.{create_lease, begin_update_on}
use fs.Central.Updates.Candidates.{choice, usable_volumes, search_storages-choice}
use fs.Central.Updates.Commit.{
  commit_tx, check_file, store_bundles, submitted_size, replace_bundles, log_and_record,
  commit_update,
}
use fs.Central.Updates.Commit.Done.{IsCommitted}
use fs.Central.Updates.Outcomes.{IsLeased, leased, commit_update-outcome, begin_update_on-outcome}

abbrev volume : ℕ → VolumeRow
volume id = record { volume_id = id; name = b'v' ∷ []; max_bytes = 900; max_volume_offset = 0 }

abbrev volume_info : ℕ → StorageVolumeInfo
volume_info id = record {
  volume_id = id;
  name = b'v' ∷ [];
  max_bytes = 900;
  max_volume_offset = 40;
  read_only = false;
}

abbrev peer : ℕ → ℕ → StoragePeerInfo
peer id volume_id = record {
  storage_id = id;
  name = b's' ∷ [];
  volumes = volume_info volume_id ∷ [];
  iroh_endpoint = [];
}

abbrev central : CentralServer
central = record {
  auth_tokens = [];
  next_id = 3;
  clients = [];
  storages = peer 1 1 ∷ peer 2 2 ∷ [];
  online_volumes =
      record { volume_id = 1; storage_id = 1 } ∷ record { volume_id = 2; storage_id = 2 } ∷ [];
  db = record empty_db { volumes = volume 1 ∷ volume 2 ∷ []; volume_seq = 2 };
  dir_cache = new_cache;
}

-- Nineteen parts of twenty.
abbrev over_threshold : ℕ → ℕ → Bool
over_threshold offset max_bytes = ltb (max_bytes * 19) (offset * 20)

abbrev grants : ℕ → GrantUploadLeaseRequest → Fs0Result GrantReply
grants storage_id request = ok (granted request.lease_id)

abbrev begin : BeginUpdateRequest
begin = record {
  path = b'/' ∷ b'f' ∷ [];
  offset = 0;
  prefer_volume_name = some (b'v' ∷ []);
  update_size_hint = some 100;
}

abbrev commit : CommitUpdateRequest
commit = record { lease_id = 1; file_id = 1; base_size = 0; new_size = 0; bundles = [] }

search_storages-choice_example :
    search_storages over_threshold begin none central.storages
    ≡ choice none (usable_volumes over_threshold begin central.storages)
search_storages-choice_example = search_storages-choice over_threshold begin central.storages

-- The state after an update of the file was begun.
abbrev begun : CentralServer
begun = (begin_update_on grants begin 5 (1, 1) central).1

commit_update-outcome_example :
    ((e : Fs0Error) × ((commit_update commit 6 7 8 begun).0 ≡ err e)
      × ((commit_update commit 6 7 8 begun).1.db ≡ begun.db))
    ⊎ ((r : FileRecord) × (revoked : Option ℕ) × ((commit_update commit 6 7 8 begun).0
          ≡ ok (r, revoked))
        × IsCommitted commit 8 begun.db (commit_update commit 6 7 8 begun).1.db r)
commit_update-outcome_example = commit_update-outcome commit 6 7 8 begun

begin_update_on-outcome_example :
    ((e : Fs0Error) × ((create_lease begin 1 5 (tx_of central)).0 ≡ err e)
      × ((begin_update_on grants begin 5 (1, 1) central).0 ≡ err e)
      × ((begin_update_on grants begin 5 (1, 1) central).1.db ≡ central.db))
    ⊎ ((lease : UpdateLease) × ((create_lease begin 1 5 (tx_of central)).0 ≡ ok lease)
        × IsLeased lease 1 5 (leased grants begin 5 1 1 central).db
        × (((grant_upload_lease_to_specific_storage grants 1 lease
                  (leased grants begin 5 1 1 central)
                ≡ ok tt)
              × (begin_update_on grants begin 5 (1, 1) central
                  ≡ (ok lease, leased grants begin 5 1 1 central)))
            ⊎ ((e : Fs0Error) × (grant_upload_lease_to_specific_storage grants 1 lease
                    (leased grants begin 5 1 1 central)
                  ≡ err e)
                × ((((begin_update_on grants begin 5 (1, 1) central).0 ≡ err e)
                      × (find
                            (has_lease_id lease.lease_id)
                            (begin_update_on grants begin 5 (1, 1) central).1.db.update_leases
                          ≡ none))
                    ⊎ (i64_mod ≤ lease.lease_id)))))
begin_update_on-outcome_example = begin_update_on-outcome grants begin 5 1 1 central

abbrev committed_file : FileRecord
committed_file = record {
  file_id = 1;
  path = b'/' ∷ b'f' ∷ [];
  size_bytes = 0;
  compressed_size_bytes = 0;
  created_at_ms = 5;
  updated_at_ms = 7;
}

-- The commit of the update that was begun succeeds.
commit_update_succeeds : (commit_update commit 6 7 8 begun).0 ≡ ok (committed_file, some 1)
unfolding commit_update find begin_update_on create_lease on_central_tx active_update_lease_volume
    column get_file_by_path split_fs0_path_dir_and_name bytes_eq get_id create_file create_dir
    ensure_child_name_available delete_expired_update_leases file_has_active_update_lease delete
    create_update_lease grant_upload_lease_to_specific_storage commit_tx check_file
    load_active_update_lease store_bundles submitted_size replace_bundles
    upsert_file_bundles_by_file_id calculate_size_by_file_id order_by select
    update_file_after_update update delete_update_lease log_and_record get_dir_path_by_id get_path
    insert_file_change_log file_record join_fs0_path
commit_update_succeeds = refl
