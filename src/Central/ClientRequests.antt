-- ===== src/Central/ClientRequests.antt =====
-- crates/fs0-central/src/request_handlers/client.rs. The readings of the clock are arguments.
pub mod ReadPlans
use fs.Prelude.{
  ℕ, Bool, true, Option, none, some, List, [], ◌∷◌, ◌++◌, any, map, length, num_eq, if◌then◌else◌,
}
use fs.Prelude.Rows.{find, update}
use fs.Core.Error.{Text, chunk_not_ready, ok_or}
use fs.Core.Hash.{HashId, hash_eq}
use fs.Core.Exec.{Exec, pure, lift, gets, ◌>>=◌, ◌>>◌}
use fs.Core.Paths.{split_fs0_path_dir_and_name}
use fs.Core.Protocol.{
  StoragePeerInfo, FileRecord, DirectoryEntries, FileBundleRef, FileChangeLogs, FileReadPlan,
  ReplicaLocation, created, moved, deleted_file,
}
use fs.Central.Types.{CentralDb, FileBundleRow, BundleReplicaRow}
use fs.Central.Replicas.{get_bundle_replicas_by_id}
use fs.Central.FileBundles.{
  get_file_bundles_by_file_id, delete_file_bundles_by_file_id, copy_file_bundles,
}
use fs.Central.Dirs.{CentralTx, on_inner}
use fs.Central.Dirs.Walk.{list_directory, file_record}
use fs.Central.Files.{
  get_file_by_id, get_file_by_path, delete_file_by_id, copy_file_by_id, rename_file_by_id,
}
use fs.Central.Events.{insert_file_change_log, get_file_change_logs}
use fs.Central.Server.{
  CentralServer, OnlineVolume, is_online_volume, on_central_tx, on_dropped_tx,
  storage_peers_snapshot,
}

-- `central_status`: the number of clients and the storage servers.
abbrev pub central_status : CentralServer → ℕ × List StoragePeerInfo
central_status s = (length s.clients, storage_peers_snapshot s)

unfoldable pub list_directory_request : Text → ℕ → Option ℕ → Exec CentralServer DirectoryEntries
list_directory_request dir limit cursor = on_central_tx (list_directory dir limit cursor)

unfoldable pub file_id_by_path : Text → Exec CentralServer ℕ
file_id_by_path path = do file ← on_dropped_tx (get_file_by_path path); pure file.file_id

-- An entry of the map `bundle_replicas`, with its key.
pub record BundleReadTarget : Type 0 where
  pub bundle_id : HashId
  pub raw_len : ℕ
  pub compressed_len : ℕ
  pub replicas : List ReplicaLocation

abbrev pub is_target : HashId → BundleReadTarget → Bool
is_target bundle_id t = hash_eq t.bundle_id bundle_id

abbrev pub new_target : BundleReplicaRow → BundleReadTarget
new_target r = record {
  bundle_id = r.bundle_id;
  raw_len = r.raw_len;
  compressed_len = r.compressed_len;
  replicas = [];
}

-- `entry(replica.bundle_id).or_insert_with(...)`
abbrev pub with_target : BundleReplicaRow → List BundleReadTarget → List BundleReadTarget
with_target r ts = if any (is_target r.bundle_id) ts then ts else ts ++ (new_target r ∷ [])

-- `bundle.replicas.push(...)`
abbrev pub push_replica : ReplicaLocation → BundleReadTarget → BundleReadTarget
push_replica location t = record t { replicas = t.replicas ++ (location ∷ []) }

unfoldable pub add_target :
    BundleReplicaRow → ReplicaLocation → List BundleReadTarget → List BundleReadTarget
add_target r location ts = update (is_target r.bundle_id) (push_replica location) (with_target r ts)

-- The loop over the replicas; one whose volume is not online is left out.
unfoldable pub read_targets :
    List OnlineVolume → List BundleReadTarget → List BundleReplicaRow → List BundleReadTarget
unfolding add_target
read_targets online ts [] = ts
read_targets online ts (r ∷ rs) =
    let skipped = read_targets online ts rs in
    elim (find (is_online_volume r.volume_id) online) [
      | none ↦ skipped
      | some o ↦
          read_targets online
            (add_target r (record { storage_id = o.storage_id; volume_id = r.volume_id }) ts) rs
    ]

abbrev pub bundle_ref : FileBundleRow → BundleReadTarget → FileBundleRef
bundle_ref b t = record {
  bundle_index = b.bundle_index;
  raw_len = t.raw_len;
  compressed_len = t.compressed_len;
  bundle_id = b.bundle_id;
  replicas = t.replicas;
}

unfoldable pub bundle_refs :
    List BundleReadTarget → List FileBundleRow → Exec CentralTx (List FileBundleRef)
bundle_refs ts [] = pure []
bundle_refs ts (b ∷ bs) = do
  t ← lift (ok_or (find (is_target b.bundle_id) ts) chunk_not_ready)
  rest ← bundle_refs ts bs
  pure (bundle_ref b t ∷ rest)

-- `collect::<HashSet<_>>`
unfoldable pub unique_ids : List HashId → List HashId
unique_ids [] = []
unique_ids (h ∷ hs) = let rest = unique_ids hs in if any (hash_eq h) rest then rest else h ∷ rest

unfoldable pub read_plan : List OnlineVolume → ℕ → Exec CentralTx FileReadPlan
unfolding read_targets bundle_refs unique_ids
read_plan online file_id = do
  file ← on_inner (get_file_by_id file_id)
  file_record ← file_record file
  file_bundles ← on_inner (get_file_bundles_by_file_id file_id)
  db ← gets (λ tx. tx.inner)
  let replicas = get_bundle_replicas_by_id (unique_ids (map (λ b. b.bundle_id) file_bundles)) db
  bundles ← bundle_refs (read_targets online [] replicas) file_bundles
  pure (record {
    file_id = file_record.file_id;
    path = file_record.path;
    size = file_record.size_bytes;
    bundles = bundles;
  })

unfoldable pub get_file_read_plan_by_id : ℕ → Exec CentralServer FileReadPlan
unfolding read_plan
get_file_read_plan_by_id file_id = do
  online ← gets (λ s. s.online_volumes)
  on_dropped_tx (read_plan online file_id)

unfoldable pub get_file_read_plan : Text → Exec CentralServer FileReadPlan
unfolding file_id_by_path get_file_read_plan_by_id
get_file_read_plan path = do file_id ← file_id_by_path path; get_file_read_plan_by_id file_id

-- `volume_id.is_none_or(...)`
abbrev pub volume_matches : Option ℕ → BundleReplicaRow → Bool
volume_matches none r = true
volume_matches (some volume_id) r = num_eq r.volume_id volume_id

unfoldable pub has_bundle_request : HashId → Option ℕ → CentralServer → Bool
has_bundle_request bundle_id volume_id s =
    any (volume_matches volume_id) (get_bundle_replicas_by_id (bundle_id ∷ []) s.db)

unfoldable pub delete_file_tx : ℕ → ℕ → Exec CentralDb (Unit {0})
delete_file_tx file_id now = do
  delete_file_bundles_by_file_id file_id
  delete_file_by_id file_id
  insert_file_change_log deleted_file none (some file_id) now

unfoldable pub delete_file_by_id_request : ℕ → ℕ → Exec CentralServer (Unit {0})
unfolding delete_file_tx
delete_file_by_id_request file_id now = on_central_tx (on_inner (delete_file_tx file_id now))

unfoldable pub delete_file_request : Text → ℕ → Exec CentralServer (Unit {0})
unfolding file_id_by_path delete_file_by_id_request
delete_file_request path now = do
  file_id ← file_id_by_path path
  delete_file_by_id_request file_id now

unfoldable pub copy_file_tx : ℕ → Text → ℕ → Exec CentralTx FileRecord
copy_file_tx source_file_id target_path now = do
  target ← lift (split_fs0_path_dir_and_name target_path)
  file ← copy_file_by_id source_file_id target_path now
  on_inner (copy_file_bundles source_file_id file.file_id)
  on_inner (insert_file_change_log created (some target) (some file.file_id) now)
  file_record file

unfoldable pub copy_file_by_id_request : ℕ → Text → ℕ → Exec CentralServer FileRecord
unfolding copy_file_tx
copy_file_by_id_request source_file_id target_path now =
    on_central_tx (copy_file_tx source_file_id target_path now)

unfoldable pub copy_file_request : Text → Text → ℕ → Exec CentralServer FileRecord
unfolding file_id_by_path copy_file_by_id_request
copy_file_request source_path target_path now = do
  source_file_id ← file_id_by_path source_path
  copy_file_by_id_request source_file_id target_path now

unfoldable pub rename_file_tx : ℕ → Text → ℕ → Exec CentralTx FileRecord
rename_file_tx file_id target_path now = do
  target ← lift (split_fs0_path_dir_and_name target_path)
  file ← rename_file_by_id file_id target_path now
  on_inner (insert_file_change_log moved (some target) (some file_id) now)
  file_record file

unfoldable pub rename_file_by_id_request : ℕ → Text → ℕ → Exec CentralServer FileRecord
unfolding rename_file_tx
rename_file_by_id_request file_id target_path now =
    on_central_tx (rename_file_tx file_id target_path now)

unfoldable pub rename_file_request : Text → Text → ℕ → Exec CentralServer FileRecord
unfolding file_id_by_path rename_file_by_id_request
rename_file_request source_path target_path now = do
  file_id ← file_id_by_path source_path
  rename_file_by_id_request file_id target_path now

unfoldable pub file_change_logs_request : ℕ → ℕ → Exec CentralServer FileChangeLogs
file_change_logs_request after_event_id limit =
    on_dropped_tx (on_inner (get_file_change_logs after_event_id limit))
