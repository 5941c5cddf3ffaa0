-- ===== src/Examples/PlanCases.antt =====
-- The theorem on plans for reading, on a file of two bundles that are stored on two volumes, of which
-- one is not online.
use fs.Prelude.{ℕ, ◌≡◌, refl, List, [], ◌∷◌, bytes_eq}
use fs.Prelude.Rows.{find, select, update, order_by}
use fs.Core.Convert.{column}
use fs.Core.Paths.{join_fs0_path}
use fs.Central.Replicas.{get_bundle_replicas_by_id}
use fs.Central.Files.{get_file_by_id}
use fs.Central.Dirs.Walk.{file_record}
use fs.Core.Error.{ok}
use fs.Core.Protocol.{FileBundleRef, FileReadPlan}
use fs.Central.Types.{
  FileRow, FileBundleEntry, FileBundleRow, BundleReplicaRow, VolumeRow, empty_db,
}
use fs.Central.FileBundles.{get_file_bundles_by_file_id}
use fs.Central.Dirs.{new_cache, get_path}
use fs.Central.Server.{CentralServer, on_dropped_tx}
use fs.Central.ClientRequests.{get_file_read_plan_by_id}
use fs.Central.ClientRequests.ReadPlans.{Plans, get_file_read_plan_by_id-Plans}
use fs.Examples.Values.{id_of}

abbrev volume : ℕ → VolumeRow
volume id = record { volume_id = id; name = b'v' ∷ []; max_bytes = 900; max_volume_offset = 0 }

abbrev file : FileRow
file = record {
  file_id = 1;
  dir_id = 0;
  name = b'f' ∷ [];
  size_bytes = 12;
  compressed_size_bytes = 7;
  created_at_ms = 5;
  updated_at_ms = 5;
}

abbrev entry : ℕ → FileBundleEntry
entry i = record { file_id = 1; bundle_index = i; bundle_id = id_of (i ∷ []) }

abbrev replica : ℕ → ℕ → ℕ → ℕ → BundleReplicaRow
replica i volume_id raw_len compressed_len = record {
  bundle_id = id_of (i ∷ []);
  volume_id = volume_id;
  raw_len = raw_len;
  compressed_len = compressed_len;
}

abbrev central : CentralServer
central = record {
  auth_tokens = [];
  next_id = 8;
  clients = [];
  storages = [];
  online_volumes = record { volume_id = 2; storage_id = 7 } ∷ [];
  db = record empty_db {
    volumes = volume 1 ∷ volume 2 ∷ [];
    volume_seq = 2;
    files = file ∷ [];
    file_bundles = entry 0 ∷ entry 1 ∷ [];
    bundle_replicas = replica 0 1 8 4 ∷ replica 0 2 8 4 ∷ replica 1 2 4 3 ∷ [];
  };
  dir_cache = new_cache;
}

abbrev ref : ℕ → ℕ → ℕ → FileBundleRef
ref i raw_len compressed_len = record {
  bundle_index = i;
  raw_len = raw_len;
  compressed_len = compressed_len;
  bundle_id = id_of (i ∷ []);
  replicas = record { storage_id = 7; volume_id = 2 } ∷ [];
}

abbrev plan : FileReadPlan
plan = record {
  file_id = 1;
  path = b'/' ∷ b'f' ∷ [];
  size = 12;
  bundles = ref 0 8 4 ∷ ref 1 4 3 ∷ [];
}

planned : (get_file_read_plan_by_id 1 central).0 ≡ ok plan
unfolding get_file_read_plan_by_id on_dropped_tx get_file_by_id column find file_record get_path
    join_fs0_path bytes_eq get_file_bundles_by_file_id order_by select get_bundle_replicas_by_id
    update
planned = refl

get_file_read_plan_by_id-Plans_example :
    ((get_file_read_plan_by_id 1 central).1.db ≡ central.db)
    × (rows : List FileBundleRow) × ((get_file_bundles_by_file_id 1 central.db).0 ≡ ok rows)
    × Plans central.online_volumes central.db.bundle_replicas rows plan.bundles
get_file_read_plan_by_id-Plans_example = get_file_read_plan_by_id-Plans 1 central plan planned
