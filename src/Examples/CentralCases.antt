-- ===== src/Examples/CentralCases.antt =====
-- The theorems on the central service, on one with two registered storage servers.
use fs.Prelude.{ℕ, ◌≡◌, refl, false, some, none, List, [], ◌∷◌, any, All, arith, bytes_eq}
use fs.Prelude.Rows.{update, find, select, sum_by, order_by}
use fs.Core.Convert.{column}
use fs.Core.Error.{Text, ok, err, not_found}
use fs.Core.Protocol.{
  StorageVolumeInfo, StoragePeerInfo, CommittedBundle, UpdateLease, BundleReplicaEvent, stored,
}
use fs.Central.Types.{CentralDb, empty_db, VolumeRow, FileRow, BundleReplicaRow, CreateUpdateLease}
use fs.Central.Dirs.{new_cache}
use fs.Central.Leases.{
  is_lease_of_file, create_update_lease, find_active, load_active_update_lease,
  active_update_lease_volume, delete_update_lease, delete_expired_update_leases,
}
use fs.Central.Leases.Lifecycle.{IsLeaseTable, create_update_lease-load, load-delete_expired}
use fs.Central.Volumes.{set_offset}
use fs.Central.FileBundles.{
  upsert_file_bundles_by_file_id, get_file_bundles_by_file_id, calculate_size_by_file_id,
}
use fs.Central.FileBundles.Listing.{rows_from, get_file_bundles-upsert}
use fs.Central.FileBundles.Sizes.{Chosen, raw_len_of, compressed_len_of, calculate_size_sound}
use fs.Central.Server.{
  CentralServer, register_storage, unregister_storage, is_mounted_by, has_storage_id,
}
use fs.Central.Server.Registry.{
  IsRegistry, IsPeer, IsMounted, register_storage-IsRegistry, unregister_storage-IsRegistry,
}
use fs.Central.StorageRequests.{update_storage_volume_offset}
use fs.Central.StorageRequests.Endpoints.{update_storage_volume_offset_foreign}
use fs.Central.StorageRequests.Offsets.{IsRefreshed, update_storage_volume_offset-IsRefreshed}
use fs.Core.Convert.{column}
use fs.Examples.Values.{id_of}

abbrev volume_row : ℕ → VolumeRow
volume_row id = record { volume_id = id; name = 118 ∷ []; max_bytes = 900; max_volume_offset = 0 }

abbrev file_row : FileRow
file_row = record {
  file_id = 1;
  dir_id = 0;
  name = 97 ∷ [];
  size_bytes = 0;
  compressed_size_bytes = 0;
  created_at_ms = 5;
  updated_at_ms = 5;
}

abbrev first_replica : BundleReplicaRow
first_replica = record {
  bundle_id = id_of (4 ∷ []);
  volume_id = 1;
  raw_len = 10;
  compressed_len = 5;
}

abbrev second_replica : BundleReplicaRow
second_replica = record {
  bundle_id = id_of (6 ∷ []);
  volume_id = 2;
  raw_len = 20;
  compressed_len = 7;
}

-- Two volumes, three when the storage server below registers, a file and two replicas.
abbrev db : CentralDb
db = record empty_db {
  volumes = volume_row 1 ∷ volume_row 2 ∷ volume_row 3 ∷ [];
  volume_seq = 3;
  files = file_row ∷ [];
  bundle_replicas = first_replica ∷ second_replica ∷ [];
}

abbrev volume_info : ℕ → StorageVolumeInfo
volume_info id = record {
  volume_id = id;
  name = 118 ∷ [];
  max_bytes = 900;
  max_volume_offset = 40;
  read_only = false;
}

abbrev peer : ℕ → ℕ → StoragePeerInfo
peer id volume_id = record {
  storage_id = id;
  name = 115 ∷ [];
  volumes = volume_info volume_id ∷ [];
  iroh_endpoint = [];
}

abbrev token : Text
token = 116 ∷ []

abbrev server : CentralServer
server = record {
  auth_tokens = token ∷ [];
  next_id = 3;
  clients = [];
  storages = peer 1 1 ∷ peer 2 2 ∷ [];
  online_volumes =
      record { volume_id = 1; storage_id = 1 } ∷ record { volume_id = 2; storage_id = 2 } ∷ [];
  db = db;
  dir_cache = new_cache;
}

server-IsRegistry : IsRegistry server
unfolding IsRegistry IsPeer IsMounted find
server-IsRegistry = ((omega arith, (refl, tt)), ((omega arith, (refl, tt)), tt))

register_storage-IsRegistry_example :
    IsRegistry (register_storage (110 ∷ []) token (volume_info 3 ∷ []) [] server).1
register_storage-IsRegistry_example =
    register_storage-IsRegistry (110 ∷ []) token (volume_info 3 ∷ []) [] server (omega arith)
      server-IsRegistry

unregister_storage-IsRegistry_example :
    IsRegistry (unregister_storage 1 server).1
    × All (λ o. is_mounted_by 1 o ≡ false) (unregister_storage 1 server).1.online_volumes
    × All (λ p. has_storage_id 1 p ≡ false) (unregister_storage 1 server).1.storages
unregister_storage-IsRegistry_example = unregister_storage-IsRegistry 1 server server-IsRegistry

update_storage_volume_offset-IsRefreshed_example :
    IsRefreshed 1 1 50 2 2 server (update_storage_volume_offset 1 1 50 server).1
unfolding update_storage_volume_offset column find update
update_storage_volume_offset-IsRefreshed_example =
    update_storage_volume_offset-IsRefreshed 1 1 50 2 2 server (λ e. absurd (omega (arith, e)))
      (λ e. absurd (omega (arith, e))) refl

update_storage_volume_offset_foreign_example :
    update_storage_volume_offset 1 2 50 server
    ≡ (err not_found, record server { db = set_offset 2 50 db })
unfolding find
update_storage_volume_offset_foreign_example =
    update_storage_volume_offset_foreign 1 2 50 server (peer 1 1) (omega arith) (omega arith) refl
      refl refl

abbrev report : BundleReplicaEvent
report = record {
  event_id = 1;
  kind = stored;
  volume_id = 1;
  bundle_id = id_of (9 ∷ []);
  raw_len = some 30;
  compressed_len = some 8;
}

abbrev committed : List CommittedBundle
committed =
    record { bundle_id = id_of (4 ∷ []); raw_len = 10; compressed_len = 5 }
    ∷ record { bundle_id = id_of (6 ∷ []); raw_len = 20; compressed_len = 7 }
    ∷ []

get_file_bundles-upsert_example :
    ((upsert_file_bundles_by_file_id 1 committed db).0 ≡ ok tt)
    × ((get_file_bundles_by_file_id 1 (upsert_file_bundles_by_file_id 1 committed db).1).0
        ≡ ok (rows_from 0 committed))
    × ((get_file_bundles_by_file_id 2 (upsert_file_bundles_by_file_id 1 committed db).1).0
        ≡ (get_file_bundles_by_file_id 2 db).0)
get_file_bundles-upsert_example =
    get_file_bundles-upsert 1 2 committed db (omega arith) (omega arith) refl (omega arith) refl

-- The database with the bundles of the file.
abbrev file_db : CentralDb
file_db = record db {
  file_bundles =
      record { file_id = 1; bundle_index = 1; bundle_id = id_of (6 ∷ []) }
      ∷ record { file_id = 1; bundle_index = 0; bundle_id = id_of (4 ∷ []) }
      ∷ [];
}

calculate_size_sound_example :
    (chosen : List BundleReplicaRow) × Chosen file_db.bundle_replicas (rows_from 0 committed) chosen
    × (30 ≡ sum_by raw_len_of chosen)
    × (12 ≡ sum_by compressed_len_of chosen)
unfolding calculate_size_by_file_id rows_from column bytes_eq find select order_by
calculate_size_sound_example =
    calculate_size_sound 1 file_db 30 12 (rows_from 0 committed) refl refl

abbrev lease_request : CreateUpdateLease
lease_request = record {
  file_id = 1;
  volume_id = 2;
  base_size_bytes = 0;
  offset_bytes = 0;
  prefer_volume_name = none;
  expires_at_ms = 60005;
  created_at_ms = 5;
}

abbrev lease : UpdateLease
lease = record {
  lease_id = 1;
  file_id = 1;
  volume_id = 2;
  base_size = 0;
  offset = 0;
  expires_at_ms = 60005;
  prefer_volume_name = none;
}

db-IsLeaseTable : IsLeaseTable db
unfolding IsLeaseTable
db-IsLeaseTable = tt

create_update_lease-load_example :
    (any (is_lease_of_file 1) db.update_leases ≡ false)
    × ((load_active_update_lease 1 1 100 (create_update_lease lease_request db).1).0
        ≡ ok (record { file_id = 1; base_size_bytes = 0; offset_bytes = 0 }))
    × ((active_update_lease_volume 1 1 100 (create_update_lease lease_request db).1).0 ≡ ok 2)
    × ((find_active 1 1 100 (delete_update_lease 1 (create_update_lease lease_request db).1).1).0
        ≡ err not_found)
unfolding create_update_lease column
create_update_lease-load_example =
    create_update_lease-load lease_request db lease 100 db-IsLeaseTable (omega arith) (omega arith)
      (omega arith) (omega arith) refl

-- The database with a lease in it.
leased_db : CentralDb
leased_db = (create_update_lease lease_request db).1

load-delete_expired_example :
    ((load_active_update_lease 1 1 100 (delete_expired_update_leases 90 leased_db).1).0
      ≡ (load_active_update_lease 1 1 100 leased_db).0)
    × ((active_update_lease_volume 1 1 100 (delete_expired_update_leases 90 leased_db).1).0
        ≡ (active_update_lease_volume 1 1 100 leased_db).0)
load-delete_expired_example = load-delete_expired 1 1 90 100 leased_db (omega arith)
