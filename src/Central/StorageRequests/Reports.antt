-- ===== src/Central/StorageRequests/Reports.antt =====
-- What a report of replicas changes (`report_bundle_replica` of request_handlers/storage.rs).
use fs.Prelude.{ℕ, ◌<◌, ◌≡◌, true, List, All}
use fs.Core.Hash.{HashId}
use fs.Central.Types.{CentralDb, BundleReplicaRow}
use fs.Central.Leases.{volume_exists}

-- A replica has a positive size, raw and compressed, and stands in a volume that exists.
unfoldable pub IsReplicaRow : CentralDb → BundleReplicaRow → Type 0
IsReplicaRow db r = (0 < r.raw_len) × (0 < r.compressed_len) × (volume_exists r.volume_id db ≡ true)

unfoldable pub IsReplicaTable : CentralDb → Type 0
IsReplicaTable db = All (IsReplicaRow db) db.bundle_replicas

replica : HashId → ℕ → ℕ → ℕ → BundleReplicaRow
replica id v raw comp = record {
  bundle_id = id;
  volume_id = v;
  raw_len = raw;
  compressed_len = comp;
}

with_replicas : CentralDb → List BundleReplicaRow → CentralDb
with_replicas db rows = record db { bundle_replicas = rows }
