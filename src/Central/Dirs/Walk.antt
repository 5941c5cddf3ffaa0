-- ===== src/Central/Dirs/Walk.antt =====
-- crates/fs0-central/src/db/dir.rs: the statements that walk the tree, each with the cache.
use fs.Prelude.{
  ℕ, suc, ◌+◌, Bool, not, ◌||◌, Option, none, some, List, [], ◌∷◌, any, length, take, drop, max,
  min, ltb, num_eq, bytes_eq, bytes_leb, if◌then◌else◌,
}
use fs.Prelude.Rows.{find, select, delete, order_with}
use fs.Core.Error.{Text, ok_or, not_found, invalid_request}
use fs.Core.Convert.{column}
use fs.Core.Exec.{Exec, pure, lift, gets, modify, reject, ◌>>=◌, ◌>>◌}
use fs.Core.Paths.{root, slash, join_fs0_path, split_fs0_path_components}
use fs.Core.Protocol.{FileRecord, DirectoryEntry, DirectoryEntries}
use fs.Central.Types.{CentralDb, FileRow, root_dir_id}
use fs.Central.Dirs.Names.{names_above, reverse_onto, join, directory_entries}
use fs.Central.Dirs.{
  CentralTx, get_id, get_path, remember, forget, on_inner, on_cache, change_cache, has_dir_id,
  parent_is, is_child, ensure_child_name_available, insert_dir,
}

-- The directory with the name, which goes into the cache under the path.
unfoldable pub select_child : ℕ → Text → Text → Exec CentralTx ℕ
select_child dir_id name path = do
  parent ← lift (column dir_id "parent_dir_id")
  dirs ← gets (λ tx. tx.inner.dirs)
  d ← lift (ok_or (find (is_child parent name) dirs) not_found)
  change_cache (remember d.dir_id path)
  pure d.dir_id

unfoldable pub step_down : ℕ → Text → Text → Exec CentralTx ℕ
unfolding select_child
step_down dir_id name path = do
  cached ← on_cache (get_id path)
  elim cached [ some id ↦ pure id | none ↦ select_child dir_id name path ]

-- The loop over the components, at a directory and its path.
unfoldable pub find_from : ℕ → Text → List Text → Exec CentralTx ℕ
unfolding step_down
find_from dir_id current_path [] = pure dir_id
find_from dir_id current_path (name ∷ names) = do
  path ← lift (join_fs0_path current_path name)
  id ← step_down dir_id name path
  find_from id path names

unfoldable pub get_dir_id_by_path : Text → Exec CentralTx ℕ
unfolding find_from
get_dir_id_by_path path = do
  cached ← on_cache (get_id path)
  elim cached [
    | some id ↦ pure id
    | none ↦ do names ← lift (split_fs0_path_components path); find_from root_dir_id root names
  ]

-- A directory that is created does not go into the cache.
unfoldable pub insert_child : ℕ → Text → Text → Exec CentralDb ℕ
insert_child dir_id name path = do
  ensure_child_name_available dir_id name none path
  insert_dir dir_id name

unfoldable pub select_or_insert : ℕ → Text → Text → Exec CentralTx ℕ
unfolding insert_child
select_or_insert dir_id name path = do
  parent ← lift (column dir_id "parent_dir_id")
  dirs ← gets (λ tx. tx.inner.dirs)
  elim (find (is_child parent name) dirs) [
    | some d ↦ do change_cache (remember d.dir_id path); pure d.dir_id
    | none ↦ on_inner (insert_child dir_id name path)
  ]

unfoldable pub enter_or_create : ℕ → Text → Text → Exec CentralTx ℕ
unfolding select_or_insert
enter_or_create dir_id name path = do
  cached ← on_cache (get_id path)
  elim cached [ some id ↦ pure id | none ↦ select_or_insert dir_id name path ]

unfoldable pub create_from : ℕ → Text → List Text → Exec CentralTx ℕ
unfolding enter_or_create
create_from dir_id current_path [] = pure dir_id
create_from dir_id current_path (name ∷ names) = do
  path ← lift (join_fs0_path current_path name)
  id ← enter_or_create dir_id name path
  create_from id path names

unfoldable pub create_dir : Text → Exec CentralTx ℕ
unfolding create_from
create_dir path = do
  cached ← on_cache (get_id path)
  elim cached [
    | some id ↦ pure id
    | none ↦ do names ← lift (split_fs0_path_components path); create_from root_dir_id root names
  ]

-- A row that no directory and no file refers to.
abbrev pub is_childless : ℕ → CentralTx → Bool
is_childless dir_id tx = not (
    any (λ d. parent_is dir_id d.parent_dir_id) tx.inner.dirs
    || any (λ f. num_eq f.dir_id dir_id) tx.inner.files)

-- DELETE FROM dirs
abbrev pub without_dir : ℕ → CentralTx → CentralTx
without_dir dir_id tx = record tx {
  inner = record tx.inner { dirs = delete (has_dir_id dir_id) tx.inner.dirs };
}

unfoldable pub remove_dir : Text → Exec CentralTx (Unit {0})
unfolding get_dir_id_by_path
remove_dir path = do
  reject (bytes_eq path root) invalid_request
  dir_id ← get_dir_id_by_path path
  reject (num_eq dir_id root_dir_id) invalid_request
  id ← lift (column dir_id "dir_id")
  childless ← gets (is_childless id)
  reject (not childless) invalid_request
  modify (without_dir id)
  change_cache (forget dir_id path)

unfoldable pub get_dir_path_by_id : ℕ → Exec CentralTx Text
unfolding names_above reverse_onto join
get_dir_path_by_id dir_id = do
  cached ← on_cache (get_path dir_id)
  elim cached [
    | some path ↦ pure path
    | none ↦ do
      dirs ← gets (λ tx. tx.inner.dirs)
      names ← lift (names_above (suc dir_id) dirs dir_id)
      let path : Text = slash ∷ join (reverse_onto names [])
      change_cache (remember dir_id path)
      pure path
  ]

unfoldable pub file_record : FileRow → Exec CentralTx FileRecord
unfolding get_dir_path_by_id
file_record file = do
  dir ← get_dir_path_by_id file.dir_id
  path ← lift (join_fs0_path dir file.name)
  pure (record {
    file_id = file.file_id;
    path = path;
    size_bytes = file.size_bytes;
    compressed_size_bytes = file.compressed_size_bytes;
    created_at_ms = file.created_at_ms;
    updated_at_ms = file.updated_at_ms;
  })

abbrev pub clamp_limit : ℕ → ℕ
clamp_limit limit = max 1 (min limit 1024)

abbrev pub name_precedes : FileRow → FileRow → Bool
name_precedes a b = bytes_leb a.name b.name

abbrev pub offset_of : Option ℕ → ℕ
offset_of none = 0
offset_of (some cursor) = cursor

-- One entry more than the limit was read, if there is one.
unfoldable pub entries_page : ℕ → ℕ → List DirectoryEntry → DirectoryEntries
entries_page limit offset entries =
    if ltb limit (length entries)
    then record { entries = take limit entries; next_cursor = some (offset + limit) }
    else record { entries = entries; next_cursor = none }

unfoldable pub list_directory : Text → ℕ → Option ℕ → Exec CentralTx DirectoryEntries
unfolding get_dir_id_by_path directory_entries entries_page
list_directory dir limit cursor = do
  dir_id ← get_dir_id_by_path dir
  id ← lift (column dir_id "dir_id")
  rows ← lift (column (clamp_limit limit + 1) "limit")
  offset ← lift (column (offset_of cursor) "cursor")
  files ← gets (λ tx. tx.inner.files)
  let page =
      take rows (drop offset (order_with name_precedes (select (λ f. num_eq f.dir_id id) files)))
  entries ← lift (directory_entries dir page)
  pure (entries_page (clamp_limit limit) (offset_of cursor) entries)
