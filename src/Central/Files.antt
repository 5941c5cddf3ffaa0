-- ===== src/Central/Files.antt =====
-- crates/fs0-central/src/db/file.rs: the files of the directories.
pub mod Lookup
pub mod Records
pub mod Create
use fs.Prelude.{
  ℕ, ◌+◌, Bool, true, false, not, ◌&&◌, Option, none, some, List, [], ◌∷◌, ◌++◌, any, num_eq,
  bytes_eq,
}
use fs.Prelude.Rows.{find, delete, update}
use fs.Core.Error.{Text, Fs0Error, lit, ok_or, not_found, sqlite}
use fs.Core.Convert.{column}
use fs.Core.Exec.{Exec, pure, lift, gets, modify, reject, ◌>>=◌, ◌>>◌}
use fs.Core.Paths.{split_fs0_path_dir_and_name}
use fs.Central.Types.{CentralDb, FileRow}
use fs.Central.Leases.{foreign_key_failed, is_lease_of_file}
use fs.Central.FileBundles.{of_file}
use fs.Central.Dirs.{CentralTx, on_inner, has_dir_id, is_file_in, ensure_child_name_available}
use fs.Central.Dirs.Walk.{create_dir, get_dir_id_by_path}

abbrev pub file_unique_failed : Fs0Error
file_unique_failed = sqlite (lit "UNIQUE constraint failed: files.dir_id, files.name" ∷ [])

abbrev pub has_file_id : ℕ → FileRow → Bool
has_file_id file_id f = num_eq f.file_id file_id

unfoldable pub get_file_by_id : ℕ → Exec CentralDb FileRow
get_file_by_id file_id = do
  id ← lift (column file_id "file_id")
  db ← gets (λ db. db)
  lift (ok_or (find (has_file_id id) db.files) not_found)

-- `query_row(..., row_to_file)` of get_file_by_path
unfoldable pub file_in_dir : ℕ → Text → Exec CentralDb FileRow
file_in_dir dir_id name = do
  id ← lift (column dir_id "dir_id")
  db ← gets (λ db. db)
  lift (ok_or (find (is_file_in id name) db.files) not_found)

unfoldable pub get_file_by_path : Text → Exec CentralTx FileRow
unfolding get_dir_id_by_path file_in_dir
get_file_by_path path = do
  (dir, name) ← lift (split_fs0_path_dir_and_name path)
  dir_id ← get_dir_id_by_path dir
  on_inner (file_in_dir dir_id name)

abbrev pub with_file : FileRow → CentralDb → CentralDb
with_file row db = record db { files = db.files ++ (row ∷ []); file_seq = row.file_id }

-- INSERT INTO files
unfoldable pub insert_file : ℕ → Text → ℕ → ℕ → ℕ → Exec CentralDb ℕ
insert_file dir_id name size_bytes compressed_size_bytes now = do
  db ← gets (λ db. db)
  let row : FileRow = record {
    file_id = db.file_seq + 1;
    dir_id = dir_id;
    name = name;
    size_bytes = size_bytes;
    compressed_size_bytes = compressed_size_bytes;
    created_at_ms = now;
    updated_at_ms = now;
  }
  reject (any (is_file_in dir_id name) db.files) file_unique_failed
  reject (not (any (has_dir_id dir_id) db.dirs)) foreign_key_failed
  modify (with_file row)
  pure (db.file_seq + 1)

-- `create_file` from `ensure_child_name_available` on.
unfoldable pub create_file_in : ℕ → Text → Text → ℕ → Exec CentralDb FileRow
unfolding insert_file get_file_by_id
create_file_in dir_id name path now = do
  ensure_child_name_available dir_id name none path
  dir ← lift (column dir_id "dir_id")
  created_at_ms ← lift (column now "created_at_ms")
  file_id ← insert_file dir name 0 0 created_at_ms
  get_file_by_id file_id

unfoldable pub create_file : Text → ℕ → Exec CentralTx FileRow
unfolding create_file_in
create_file path now = do
  (dir, name) ← lift (split_fs0_path_dir_and_name path)
  dir_id ← create_dir dir
  on_inner (create_file_in dir_id name path now)

-- ON DELETE CASCADE takes the bundles and the lease of the file.
abbrev pub without_file : ℕ → CentralDb → CentralDb
without_file file_id db = record db {
  files = delete (has_file_id file_id) db.files;
  file_bundles = delete (of_file file_id) db.file_bundles;
  update_leases = delete (is_lease_of_file file_id) db.update_leases;
}

unfoldable pub delete_file_by_id : ℕ → Exec CentralDb (Unit {0})
delete_file_by_id file_id = do
  id ← lift (column file_id "file_id")
  found ← gets (λ db. any (has_file_id id) db.files)
  reject (not found) not_found
  modify (without_file id)

-- `copy_file_by_id` from `ensure_child_name_available` on.
unfoldable pub copy_file_in : FileRow → ℕ → Text → Text → ℕ → Exec CentralDb FileRow
unfolding insert_file get_file_by_id
copy_file_in source target_dir_id target_name target_path now = do
  ensure_child_name_available target_dir_id target_name none target_path
  dir ← lift (column target_dir_id "target_dir_id")
  size_bytes ← lift (column source.size_bytes "size_bytes")
  compressed_size_bytes ← lift (column source.compressed_size_bytes "compressed_size_bytes")
  created_at_ms ← lift (column now "created_at_ms")
  file_id ← insert_file dir target_name size_bytes compressed_size_bytes created_at_ms
  get_file_by_id file_id

unfoldable pub copy_file_by_id : ℕ → Text → ℕ → Exec CentralTx FileRow
unfolding copy_file_in get_file_by_id
copy_file_by_id source_file_id target_path now = do
  (target_dir, target_name) ← lift (split_fs0_path_dir_and_name target_path)
  source ← on_inner (get_file_by_id source_file_id)
  target_dir_id ← create_dir target_dir
  on_inner (copy_file_in source target_dir_id target_name target_path now)

abbrev pub moved_to : ℕ → Text → ℕ → FileRow → FileRow
moved_to dir_id name now f = record f { dir_id = dir_id; name = name; updated_at_ms = now }

-- Another file that has the name already.
abbrev pub collides : ℕ → ℕ → Text → FileRow → Bool
collides file_id dir_id name f = is_file_in dir_id name f && not (has_file_id file_id f)

-- UPDATE files SET dir_id, name
unfoldable pub update_place : ℕ → ℕ → Text → ℕ → Exec CentralDb (Unit {0})
update_place file_id dir_id name now = do
  db ← gets (λ db. db)
  reject (not (any (has_file_id file_id) db.files)) not_found
  reject (any (collides file_id dir_id name) db.files) file_unique_failed
  reject (not (any (has_dir_id dir_id) db.dirs)) foreign_key_failed
  modify
      (λ db. record db { files = update (has_file_id file_id) (moved_to dir_id name now) db.files })

-- `rename_file_by_id` from `ensure_child_name_available` on.
unfoldable pub rename_file_in : ℕ → ℕ → Text → Text → ℕ → Exec CentralDb FileRow
unfolding update_place get_file_by_id
rename_file_in file_id target_dir_id target_name target_path now = do
  ensure_child_name_available target_dir_id target_name (some file_id) target_path
  id ← lift (column file_id "file_id")
  dir ← lift (column target_dir_id "target_dir_id")
  updated_at_ms ← lift (column now "updated_at_ms")
  update_place id dir target_name updated_at_ms
  get_file_by_id file_id

unfoldable pub rename_file_by_id : ℕ → Text → ℕ → Exec CentralTx FileRow
unfolding rename_file_in
rename_file_by_id file_id target_path now = do
  (target_dir, target_name) ← lift (split_fs0_path_dir_and_name target_path)
  target_dir_id ← create_dir target_dir
  on_inner (rename_file_in file_id target_dir_id target_name target_path now)

abbrev pub resized : ℕ → ℕ → ℕ → FileRow → FileRow
resized size_bytes compressed_size_bytes now f = record f {
  size_bytes = size_bytes;
  compressed_size_bytes = compressed_size_bytes;
  updated_at_ms = now;
}

unfoldable pub update_file_after_update : ℕ → ℕ → ℕ → ℕ → Exec CentralDb FileRow
unfolding get_file_by_id
update_file_after_update file_id new_size compressed_size_bytes updated_at_ms = do
  id ← lift (column file_id "file_id")
  size ← lift (column new_size "size_bytes")
  compressed ← lift (column compressed_size_bytes "compressed_size_bytes")
  now ← lift (column updated_at_ms "updated_at_ms")
  found ← gets (λ db. any (has_file_id id) db.files)
  modify
      (λ db. record db { files = update (has_file_id id) (resized size compressed now) db.files })
  reject (not found) not_found
  get_file_by_id file_id
