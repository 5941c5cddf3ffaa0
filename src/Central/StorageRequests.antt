-- ===== src/Central/StorageRequests.antt =====
-- The handlers of crates/fs0-central/src/request_handlers/storage.rs.
pub mod Reports
pub mod Endpoints
pub mod Offsets
use fs.Prelude.{
  ℕ, suc, ◌+◌, ◌%◌, Bool, true, false, not, ◌&&◌, Option, none, some, List, [], ◌∷◌, ◌++◌, any, max,
  num_eq, bytes_eq, if◌then◌else◌,
}
use fs.Prelude.Rows.{find, delete, update, order_by}
use fs.Core.Constants.{u64_mod}
use fs.Core.Error.{
  Text, Fs0Error, ok, ok_or, unauthorized, invalid_request, not_found, volume_already_mounted,
}
use fs.Core.Exec.{Exec, pure, raise, lift, gets, modify, reject, transaction, ◌>>=◌, ◌>>◌}
use fs.Core.Protocol.{
  StorageVolumeInfo, StoragePeerInfo, BundleReplicaEvent, BundleReplicaEventKind, stored, deleted,
}
use fs.Central.Types.{CentralDb}
use fs.Central.Volumes.{get_volume, update_volume_offset, create_volume}
use fs.Central.Replicas.{insert_bundle_replica, delete_bundle_replica}
use fs.Central.Server.{
  CentralServer, OnlineVolume, has_client_id, has_storage_id, is_online_volume, on_tx,
}

unfoldable pub validate_client_auth : ℕ → Text → Exec CentralServer ℕ
validate_client_auth client_id client_token = do
  s ← gets (λ s. s)
  client ← lift (ok_or (find (has_client_id client_id) s.clients) unauthorized)
  reject (not (bytes_eq client.token client_token)) unauthorized
  pure client_id

-- `create_volume` of request_handlers/storage.rs
unfoldable pub create_volume_request : Text → ℕ → Exec CentralServer ℕ
unfolding create_volume
create_volume_request name max_bytes = do
  volume ← on_tx (create_volume name max_bytes)
  pure volume.volume_id

abbrev pub is_reporter : List OnlineVolume → ℕ → BundleReplicaEvent → Bool
is_reporter online storage_id e = elim (find (is_online_volume e.volume_id) online) [
  | none ↦ false
  | some o ↦ num_eq o.storage_id storage_id
]

unfoldable pub apply_event : BundleReplicaEvent → Exec CentralDb (Unit {0})
unfolding insert_bundle_replica delete_bundle_replica
apply_event e = elim e.kind [
  | stored ↦ do
    raw_len ← lift (ok_or e.raw_len invalid_request)
    compressed_len ← lift (ok_or e.compressed_len invalid_request)
    insert_bundle_replica e.bundle_id e.volume_id raw_len compressed_len
  | deleted ↦ delete_bundle_replica e.bundle_id e.volume_id
]

unfoldable pub apply_events : List BundleReplicaEvent → Exec CentralDb (Unit {0})
unfolding apply_event
apply_events [] = pure tt
apply_events (e ∷ es) = do apply_event e; apply_events es

unfoldable pub report_bundle_replica : ℕ → List BundleReplicaEvent → Exec CentralServer (Unit {0})
unfolding apply_events
report_bundle_replica storage_id events = do
  online ← gets (λ s. s.online_volumes)
  reject (any (λ e. not (is_reporter online storage_id e)) events) invalid_request
  on_tx (apply_events events)

unfoldable pub update_storage_endpoint : ℕ → List ℕ → Exec CentralServer (Unit {0})
update_storage_endpoint storage_id iroh_endpoint = do
  s ← gets (λ s. s)
  reject (not (any (has_storage_id storage_id) s.storages)) not_found
  modify (λ s. record s {
    storages =
        update (has_storage_id storage_id) (λ p. record p { iroh_endpoint = iroh_endpoint })
          s.storages;
  })

abbrev pub has_info_id : ℕ → StorageVolumeInfo → Bool
has_info_id volume_id v = num_eq v.volume_id volume_id

-- The first volume with the id takes the values of its row.
unfoldable pub refresh_first : StorageVolumeInfo → List StorageVolumeInfo → List StorageVolumeInfo
refresh_first row [] = []
refresh_first row (v ∷ vs) =
    let rest = refresh_first row vs in
    if has_info_id row.volume_id v
    then record v {
      name = row.name;
      max_bytes = row.max_bytes;
      max_volume_offset = row.max_volume_offset;
    }
      ∷ vs
    else v ∷ rest

unfoldable pub update_storage_volume_offset : ℕ → ℕ → ℕ → Exec CentralServer (Unit {0})
unfolding update_volume_offset refresh_first
update_storage_volume_offset storage_id volume_id max_volume_offset = do
  registered ← on_tx (update_volume_offset volume_id max_volume_offset)
  s ← gets (λ s. s)
  peer ← lift (ok_or (find (has_storage_id storage_id) s.storages) not_found)
  reject (not (any (has_info_id volume_id) peer.volumes)) not_found
  modify (λ s. record s {
    storages =
        update (has_storage_id storage_id)
          (λ p. record p { volumes = refresh_first registered p.volumes }) s.storages;
  })
