-- ===== src/Central/Replicas.antt =====
-- crates/fs0-central/src/db/bundle_replica.rs: where the bundles are stored.
use fs.Prelude.{
  ℕ, zero, suc, Bool, true, false, not, ◌&&◌, ◌||◌, List, [], ◌∷◌, ◌++◌, any, ltb, num_eq, take,
  drop, length, if◌then◌else◌,
}
use fs.Prelude.Rows.{select, delete, update}
use fs.Core.Error.{invalid_request}
use fs.Core.Hash.{HashId, hash_eq}
use fs.Core.Exec.{Exec, lift, gets, modify, reject, ◌>>=◌, ◌>>◌}
use fs.Core.Convert.{column}
use fs.Central.Types.{CentralDb, BundleReplicaRow}
use fs.Central.Leases.{volume_exists, foreign_key_failed}

abbrev pub bundle_id_query_batch_size : ℕ
bundle_id_query_batch_size = 500

abbrev pub is_replica : HashId → ℕ → BundleReplicaRow → Bool
is_replica bundle_id volume_id r = hash_eq r.bundle_id bundle_id && num_eq r.volume_id volume_id

-- INSERT ... ON CONFLICT(bundle_id, volume_id) DO UPDATE
abbrev pub upsert_replica : BundleReplicaRow → List BundleReplicaRow → List BundleReplicaRow
upsert_replica row rows =
    if any (is_replica row.bundle_id row.volume_id) rows
    then update (is_replica row.bundle_id row.volume_id) (λ r. row) rows
    else rows ++ (row ∷ [])

-- `insert_bundle_replica`; the lengths of the other replicas are only compared for the log.
unfoldable pub insert_bundle_replica : HashId → ℕ → ℕ → ℕ → Exec CentralDb (Unit {0})
insert_bundle_replica bundle_id volume_id raw_len compressed_len = do
  reject (num_eq raw_len 0 || num_eq compressed_len 0) invalid_request
  volume_id ← lift (column volume_id "volume_id")
  raw_len ← lift (column raw_len "raw_len")
  compressed_len ← lift (column compressed_len "compressed_len")
  db ← gets (λ db. db)
  reject (not (volume_exists volume_id db)) foreign_key_failed
  let row : BundleReplicaRow = record {
    bundle_id = bundle_id;
    volume_id = volume_id;
    raw_len = raw_len;
    compressed_len = compressed_len;
  }
  modify (λ db. record db { bundle_replicas = upsert_replica row db.bundle_replicas })

unfoldable pub delete_bundle_replica : HashId → ℕ → Exec CentralDb (Unit {0})
delete_bundle_replica bundle_id volume_id = do
  volume_id ← lift (column volume_id "volume_id")
  modify (λ db. record db {
    bundle_replicas = delete (is_replica bundle_id volume_id) db.bundle_replicas;
  })

-- Whether a blob comes before another one.
unfoldable pub bytes_before : List ℕ → List ℕ → Bool
bytes_before a [] = false
bytes_before [] (y ∷ ys) = true
bytes_before (x ∷ xs) (y ∷ ys) =
    let rest = bytes_before xs ys in if ltb x y then true else if num_eq x y then rest else false

-- ORDER BY bundle_id, volume_id
abbrev pub before : BundleReplicaRow → BundleReplicaRow → Bool
unfolding bytes_before
before a b =
    if hash_eq a.bundle_id b.bundle_id
    then ltb a.volume_id b.volume_id
    else bytes_before a.bundle_id.bytes b.bundle_id.bytes

unfoldable pub insert_sorted : BundleReplicaRow → List BundleReplicaRow → List BundleReplicaRow
unfolding bytes_before
insert_sorted r [] = r ∷ []
insert_sorted r (x ∷ xs) =
    let rest = insert_sorted r xs in if before r x then r ∷ x ∷ xs else x ∷ rest

unfoldable pub order_replicas : List BundleReplicaRow → List BundleReplicaRow
unfolding insert_sorted
order_replicas [] = []
order_replicas (x ∷ xs) = insert_sorted x (order_replicas xs)

-- The rows of one batch of ids.
unfoldable pub query_batch : List HashId → CentralDb → List BundleReplicaRow
unfolding order_replicas
query_batch ids db =
    order_replicas (select (λ r. any (λ id. hash_eq r.bundle_id id) ids) db.bundle_replicas)

-- `bundle_ids.chunks(size)`, on fuel for the number of ids: a chunk takes one id at least.
unfoldable pub query_batches : ℕ → List HashId → CentralDb → List BundleReplicaRow
unfolding query_batch
query_batches fuel [] db = []
query_batches zero (id ∷ ids) db = []
query_batches (suc fuel) (id ∷ ids) db =
    query_batch (take bundle_id_query_batch_size (id ∷ ids)) db
    ++ query_batches fuel (drop bundle_id_query_batch_size (id ∷ ids)) db

unfoldable pub get_bundle_replicas_by_id : List HashId → CentralDb → List BundleReplicaRow
unfolding query_batches
get_bundle_replicas_by_id bundle_ids db = query_batches (length bundle_ids) bundle_ids db
