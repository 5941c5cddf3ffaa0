-- ===== src/Central/FileBundles.antt =====
-- crates/fs0-central/src/db/file_bundle.rs: the bundles of a file, and the size that they add up to.
pub mod Listing
pub mod Sizes
use fs.Prelude.{
  ℕ, zero, suc, ◌+◌, Bool, true, false, not, ◌&&◌, Option, none, some, List, [], ◌∷◌, ◌++◌, map,
  any, num_eq, if◌then◌else◌,
}
use fs.Prelude.Rows.{find, select, delete, order_by}
use fs.Core.Error.{Fs0Error, lit, integer_conversion, sqlite, chunk_not_ready, ok_or}
use fs.Core.Hash.{HashId, hash_eq}
use fs.Core.Exec.{Exec, pure, lift, gets, modify, reject, transaction, ◌>>=◌, ◌>>◌}
use fs.Core.Convert.{column, checked_add}
use fs.Core.Protocol.{CommittedBundle}
use fs.Central.Types.{CentralDb, FileBundleEntry, FileBundleRow, BundleReplicaRow}
use fs.Central.Leases.{file_exists, foreign_key_failed}
use fs.Central.Replicas.{get_bundle_replicas_by_id}

abbrev pub of_file : ℕ → FileBundleEntry → Bool
of_file file_id e = num_eq e.file_id file_id

abbrev pub entry_index : FileBundleEntry → ℕ
entry_index e = e.bundle_index

abbrev pub duplicate_index : Fs0Error
duplicate_index =
    sqlite (lit "UNIQUE constraint failed: file_bundles.file_id, file_bundles.bundle_index" ∷ [])

-- The primary key of the table.
abbrev pub is_at : ℕ → ℕ → FileBundleEntry → Bool
is_at file_id index e = num_eq e.file_id file_id && num_eq e.bundle_index index

unfoldable pub delete_file_bundles_by_file_id : ℕ → Exec CentralDb (Unit {0})
delete_file_bundles_by_file_id file_id = do
  file_id ← lift (column file_id "file_id")
  modify (λ db. record db { file_bundles = delete (of_file file_id) db.file_bundles })

-- INSERT INTO file_bundles
unfoldable pub insert_entry : FileBundleEntry → Exec CentralDb (Unit {0})
insert_entry e = do
  db ← gets (λ db. db)
  reject (any (is_at e.file_id e.bundle_index) db.file_bundles) duplicate_index
  reject (not (file_exists e.file_id db)) foreign_key_failed
  modify (λ db. record db { file_bundles = db.file_bundles ++ (e ∷ []) })

-- The loop over `bundles.iter().enumerate()`, from an index on.
unfoldable pub insert_from : ℕ → ℕ → List CommittedBundle → Exec CentralDb (Unit {0})
unfolding insert_entry
insert_from file_id i [] = pure tt
insert_from file_id i (b ∷ bs) = do
  id ← lift (column file_id "file_id")
  index ← lift (column i "bundle_index")
  insert_entry (record { file_id = id; bundle_index = index; bundle_id = b.bundle_id })
  insert_from file_id (suc i) bs

unfoldable pub upsert_file_bundles_by_file_id : ℕ → List CommittedBundle → Exec CentralDb (Unit {0})
unfolding delete_file_bundles_by_file_id insert_from
upsert_file_bundles_by_file_id file_id bundles = do
  delete_file_bundles_by_file_id file_id
  insert_from file_id 0 bundles

unfoldable pub insert_entries : List FileBundleEntry → Exec CentralDb (Unit {0})
unfolding insert_entry
insert_entries [] = pure tt
insert_entries (e ∷ es) = do insert_entry e; insert_entries es

abbrev in_file : ℕ → FileBundleEntry → FileBundleEntry
in_file target e = record e { file_id = target }

-- INSERT INTO ... SELECT, a statement that fails as a whole.
unfoldable pub copy_file_bundles : ℕ → ℕ → Exec CentralDb (Unit {0})
unfolding insert_entries
copy_file_bundles source_file_id target_file_id = do
  target ← lift (column target_file_id "target_file_id")
  source ← lift (column source_file_id "source_file_id")
  db ← gets (λ db. db)
  transaction (insert_entries (map (in_file target) (select (of_file source) db.file_bundles)))

abbrev pub to_row : FileBundleEntry → FileBundleRow
to_row e = record { bundle_index = e.bundle_index; bundle_id = e.bundle_id }

unfoldable pub get_file_bundles_by_file_id : ℕ → Exec CentralDb (List FileBundleRow)
get_file_bundles_by_file_id file_id = do
  file_id ← lift (column file_id "file_id")
  db ← gets (λ db. db)
  pure (map to_row (order_by entry_index (select (of_file file_id) db.file_bundles)))

abbrev pub has_bundle : HashId → BundleReplicaRow → Bool
has_bundle bundle_id r = hash_eq r.bundle_id bundle_id

-- `ready_bundles.entry(replica.bundle_id).or_insert(...)` for the rows in turn.
unfoldable pub or_insert_all : List BundleReplicaRow → List BundleReplicaRow → List BundleReplicaRow
or_insert_all ready [] = ready
or_insert_all ready (r ∷ rs) =
    if any (has_bundle r.bundle_id) ready
    then or_insert_all ready rs
    else or_insert_all (ready ++ (r ∷ [])) rs

abbrev pub raw_overflow : Fs0Error
raw_overflow = integer_conversion (lit "file bundle raw size overflow" ∷ [])

abbrev pub compressed_overflow : Fs0Error
compressed_overflow = integer_conversion (lit "file bundle compressed size overflow" ∷ [])

-- The sum of the lengths, from the totals so far on.
unfoldable pub add_sizes :
    List BundleReplicaRow → ℕ → ℕ → List FileBundleRow → Exec CentralDb (ℕ × ℕ)
add_sizes ready raw compressed [] = pure (raw, compressed)
add_sizes ready raw compressed (b ∷ bs) = do
  bundle ← lift (ok_or (find (has_bundle b.bundle_id) ready) chunk_not_ready)
  raw ← lift (checked_add raw bundle.raw_len raw_overflow)
  compressed ← lift (checked_add compressed bundle.compressed_len compressed_overflow)
  add_sizes ready raw compressed bs

unfoldable pub calculate_size_by_file_id : ℕ → Exec CentralDb (ℕ × ℕ)
unfolding get_file_bundles_by_file_id get_bundle_replicas_by_id or_insert_all add_sizes
calculate_size_by_file_id file_id = do
  file_bundles ← get_file_bundles_by_file_id file_id
  db ← gets (λ db. db)
  let replicas = get_bundle_replicas_by_id (map (λ b. b.bundle_id) file_bundles) db
  add_sizes (or_insert_all [] replicas) 0 0 file_bundles
