-- ===== src/Central/Server.antt =====
-- The registry of crates/fs0-central/src/server.rs.
-- A connection is not modelled: closing one is left out, and a stored connection has no field.
pub mod Registry
use fs.Prelude.{
  ℕ, suc, ◌+◌, ◌%◌, Bool, true, false, not, ◌&&◌, Option, none, some, List, [], ◌∷◌, ◌++◌, any, max,
  num_eq, bytes_eq, if◌then◌else◌,
}
use fs.Prelude.Rows.{find, delete, update, order_by}
use fs.Core.Constants.{u64_mod}
use fs.Core.Error.{
  Text, Fs0Error, Fs0Result, ok, err, ok_or, unauthorized, invalid_request, not_found,
  volume_already_mounted,
}
use fs.Core.Exec.{Exec, pure, raise, lift, gets, modify, reject, transaction, ◌>>=◌, ◌>>◌}
use fs.Core.Protocol.{
  StorageVolumeInfo, StoragePeerInfo, BundleReplicaEvent, BundleReplicaEventKind, stored, deleted,
}
use fs.Central.Types.{CentralDb}
use fs.Central.Dirs.{DirCacheState, CentralTx}
use fs.Central.Volumes.{get_volume, update_volume_offset, create_volume}
use fs.Central.Replicas.{insert_bundle_replica, delete_bundle_replica}

pub record ClientControlConnection : Type 0 where
  pub client_id : ℕ
  pub token : Text

pub record OnlineVolume : Type 0 where
  pub volume_id : ℕ
  pub storage_id : ℕ

-- A map is the list of its entries, each with its key.
pub record CentralServer : Type 0 where
  pub auth_tokens : List Text
  pub next_id : ℕ
  pub clients : List ClientControlConnection
  pub storages : List StoragePeerInfo
  pub online_volumes : List OnlineVolume
  pub db : CentralDb
  pub dir_cache : DirCacheState

abbrev pub has_client_id : ℕ → ClientControlConnection → Bool
has_client_id id c = num_eq c.client_id id

abbrev pub has_storage_id : ℕ → StoragePeerInfo → Bool
has_storage_id id p = num_eq p.storage_id id

abbrev pub is_online_volume : ℕ → OnlineVolume → Bool
is_online_volume volume_id o = num_eq o.volume_id volume_id

abbrev pub is_mounted_by : ℕ → OnlineVolume → Bool
is_mounted_by storage_id o = num_eq o.storage_id storage_id

abbrev pub storage_id_of : StoragePeerInfo → ℕ
storage_id_of p = p.storage_id

-- `server.db.lock()` and `db.tx()?` up to `tx.commit()?`
abbrev pub on_tx : {A : Type 0} → Exec CentralDb A → Exec CentralServer A
on_tx m s = let (r, db) = transaction m s.db in (r, record s { db = db })

-- The tables after a transaction: the old ones when it was rolled back.
abbrev pub settled : {A : Type 0} → Fs0Result A → CentralDb → CentralDb → CentralDb
settled (ok a) old new = new
settled (err e) old new = old

abbrev pub tx_of : CentralServer → CentralTx
tx_of s = record { inner = s.db; dir_cache = s.dir_cache }

-- The same for a transaction that uses the cache, which keeps what the transaction put in.
unfoldable pub on_central_tx : {A : Type 0} → Exec CentralTx A → Exec CentralServer A
on_central_tx m s =
    let (r, tx) = m (tx_of s) in
    (r, record s { db = settled r s.db tx.inner; dir_cache = tx.dir_cache })

-- A transaction that is dropped without a commit.
unfoldable pub on_dropped_tx : {A : Type 0} → Exec CentralTx A → Exec CentralServer A
on_dropped_tx m s = let (r, tx) = m (tx_of s) in (r, record s { dir_cache = tx.dir_cache })

-- `fetch_add` wraps around.
unfoldable pub next_id : Exec CentralServer ℕ
next_id s = (ok s.next_id, record s { next_id = (s.next_id + 1) % u64_mod })

unfoldable pub token_allowed : Text → CentralServer → Bool
token_allowed token s = any (λ allowed. bytes_eq allowed token) s.auth_tokens

unfoldable pub storage_peers_snapshot : CentralServer → List StoragePeerInfo
storage_peers_snapshot s = order_by storage_id_of s.storages

unfoldable pub register_client : Text → Exec CentralServer (ℕ × List StoragePeerInfo)
unfolding token_allowed next_id storage_peers_snapshot
register_client token = do
  allowed ← gets (token_allowed token)
  reject (not allowed) unauthorized
  client_id ← next_id
  let client : ClientControlConnection = record { client_id = client_id; token = token }
  modify (λ s. record s { clients = delete (has_client_id client_id) s.clients ++ (client ∷ []) })
  peers ← gets storage_peers_snapshot
  pure (client_id, peers)

unfoldable pub unregister_client : ℕ → Exec CentralServer (Unit {0})
unregister_client client_id =
    modify (λ s. record s { clients = delete (has_client_id client_id) s.clients })

-- One volume of a storage server, checked against its row and brought up to date with it.
unfoldable pub register_volume : StorageVolumeInfo → Exec CentralDb StorageVolumeInfo
unfolding get_volume update_volume_offset
register_volume volume = do
  registered ← get_volume volume.volume_id
  let offset : ℕ = max registered.max_volume_offset volume.max_volume_offset
  _ ← raise_offset volume.volume_id offset registered.max_volume_offset
  reject (not (num_eq registered.max_bytes volume.max_bytes)) invalid_request
  pure (record volume { name = registered.name; max_volume_offset = offset })
  where
    raise_offset : ℕ → ℕ → ℕ → Exec CentralDb (Unit {0})
    raise_offset volume_id offset present =
        if num_eq offset present
        then pure tt
        else do _ ← update_volume_offset volume_id offset; pure tt

unfoldable pub register_volumes : List StorageVolumeInfo → Exec CentralDb (List StorageVolumeInfo)
unfolding register_volume
register_volumes [] = pure []
register_volumes (v ∷ vs) = do v ← register_volume v; vs ← register_volumes vs; pure (v ∷ vs)

abbrev pub is_mounted : List OnlineVolume → StorageVolumeInfo → Bool
is_mounted online v = any (is_online_volume v.volume_id) online

-- `online_volumes.insert(volume.volume_id, storage_id)` for each volume.
unfoldable pub mount_all : ℕ → List StorageVolumeInfo → List OnlineVolume → List OnlineVolume
mount_all storage_id [] online = online
mount_all storage_id (v ∷ vs) online = mount_all storage_id vs (
    delete (is_online_volume v.volume_id) online
    ++ (record { volume_id = v.volume_id; storage_id = storage_id } ∷ []))

-- The critical section of `online_volumes`.
unfoldable pub claim_volumes : StoragePeerInfo → Exec CentralServer (Unit {0})
unfolding mount_all
claim_volumes peer = do
  online ← gets (λ s. s.online_volumes)
  reject (any (is_mounted online) peer.volumes) volume_already_mounted
  modify (λ s. record s { online_volumes = mount_all peer.storage_id peer.volumes online })

-- The critical section of `storages`.
unfoldable pub insert_storage : StoragePeerInfo → Exec CentralServer (Unit {0})
insert_storage peer =
    modify (λ s. record s {
      storages = delete (has_storage_id peer.storage_id) s.storages ++ (peer ∷ []);
    })

unfoldable pub mount_storage : StoragePeerInfo → Exec CentralServer (Unit {0})
unfolding claim_volumes insert_storage
mount_storage peer = do claim_volumes peer; insert_storage peer

-- `register_storage` from `next_id` on.
unfoldable pub enter_storage :
    Text → List StorageVolumeInfo → List ℕ → Exec CentralServer (ℕ × List StoragePeerInfo)
unfolding next_id mount_storage storage_peers_snapshot
enter_storage name volumes iroh_endpoint = do
  storage_id ← next_id
  mount_storage (record {
    storage_id = storage_id;
    name = name;
    volumes = volumes;
    iroh_endpoint = iroh_endpoint;
  })
  peers ← gets storage_peers_snapshot
  pure (storage_id, peers)

unfoldable pub register_storage :
    Text → Text → List StorageVolumeInfo → List ℕ → Exec CentralServer (ℕ × List StoragePeerInfo)
unfolding token_allowed register_volumes enter_storage
register_storage name token volumes iroh_endpoint = do
  allowed ← gets (token_allowed token)
  reject (not allowed) unauthorized
  volumes ← on_tx (register_volumes volumes)
  enter_storage name volumes iroh_endpoint

-- `unregister_storage`; the result says whether the storage was registered.
unfoldable pub unregister_storage : ℕ → Exec CentralServer Bool
unregister_storage storage_id = do
  removed ← gets (λ s. any (has_storage_id storage_id) s.storages)
  modify (λ s. record s {
    storages = delete (has_storage_id storage_id) s.storages;
    online_volumes = delete (is_mounted_by storage_id) s.online_volumes;
  })
  pure removed
