-- ===== src/Central/Dirs.antt =====
-- crates/fs0-central/src/db/dir.rs: the directories, with a cache that a transaction which is rolled
-- back leaves as it is.
pub mod Names
pub mod Walk
pub mod Reference
pub mod Cache
pub mod Resolve
pub mod Tree
pub mod Steps
pub mod Create
pub mod Climb
use fs.Prelude.{
  ℕ, zero, suc, ◌+◌, ◌-◌, Bool, true, false, not, ◌&&◌, ◌||◌, Option, none, some, List, [], ◌∷◌,
  ◌++◌, map, any, length, take, drop, max, min, ltb, leb, num_eq, bytes_eq, if◌then◌else◌,
}
use fs.Prelude.Rows.{find, select, delete, update, order_by}
use fs.Core.Constants.{u64_mod}
use fs.Core.Error.{
  Text, Fs0Error, Fs0Result, ok, err, lit, num, ok_or, not_found, already_exists, invalid_request,
  invalid_data, sqlite,
}
use fs.Core.Convert.{column}
use fs.Core.Exec.{Exec, pure, raise, lift, gets, modify, reject, ◌>>=◌, ◌>>◌}
use fs.Core.Paths.{root, slash, is_empty, join_fs0_path, split_fs0_path_components}
use fs.Core.Protocol.{FileRecord, DirectoryEntry, DirectoryEntries}
use fs.Central.Types.{CentralDb, DirRow, FileRow, root_dir_id}
use fs.Central.Leases.{foreign_key_failed}

abbrev pub dir_cache_max_entries : ℕ
dir_cache_max_entries = 8192

abbrev pub dir_cache_trim_to_entries : ℕ
dir_cache_trim_to_entries = 6144

-- The entries of `path_to_entry` and of `id_to_path`, each with its key.
pub record DirCacheEntry : Type 0 where
  pub path : Text
  pub dir_id : ℕ
  pub last_access : ℕ

pub record IdPath : Type 0 where
  pub dir_id : ℕ
  pub path : Text

pub record DirCacheState : Type 0 where
  pub path_to_entry : List DirCacheEntry
  pub id_to_path : List IdPath
  pub next_access : ℕ

abbrev pub new_cache : DirCacheState
new_cache = record { path_to_entry = []; id_to_path = []; next_access = 1 }

abbrev pub has_path : Text → DirCacheEntry → Bool
has_path path e = bytes_eq e.path path

abbrev pub has_cached_id : ℕ → IdPath → Bool
has_cached_id dir_id e = num_eq e.dir_id dir_id

abbrev pub last_access_of : DirCacheEntry → ℕ
last_access_of e = e.last_access

-- `next_access`, which stops at the largest `u64`
abbrev pub bump : DirCacheState → DirCacheState
bump c = record c { next_access = min (c.next_access + 1) (u64_mod - 1) }

abbrev pub touch_path : Text → ℕ → DirCacheState → DirCacheState
touch_path path access c = record c {
  path_to_entry = update (has_path path) (λ e. record e { last_access = access }) c.path_to_entry;
}

unfoldable pub get_id : Text → DirCacheState → Option ℕ × DirCacheState
get_id path c =
    if bytes_eq path root
    then (some root_dir_id, c)
    else elim (find (has_path path) c.path_to_entry) [
      | none ↦ (none, bump c)
      | some e ↦ (some e.dir_id, touch_path path c.next_access (bump c))
    ]

unfoldable pub get_path : ℕ → DirCacheState → Option Text × DirCacheState
get_path dir_id c =
    if num_eq dir_id root_dir_id
    then (some root, c)
    else elim (find (has_cached_id dir_id) c.id_to_path) [
      | none ↦ (none, c)
      | some e ↦ (some e.path, touch_path e.path c.next_access (bump c))
    ]

-- `path_to_entry.remove(path)` and `id_to_path.remove(dir_id)`
abbrev pub drop_entry : ℕ → Text → DirCacheState → DirCacheState
drop_entry dir_id path c = record c {
  path_to_entry = delete (has_path path) c.path_to_entry;
  id_to_path = delete (has_cached_id dir_id) c.id_to_path;
}

unfoldable pub drop_entries : List DirCacheEntry → DirCacheState → DirCacheState
drop_entries [] c = c
drop_entries (e ∷ es) c = drop_entries es (drop_entry e.dir_id e.path c)

abbrev pub insert_both : ℕ → Text → DirCacheState → DirCacheState
insert_both dir_id path c =
    let entry : DirCacheEntry = record {
      path = path;
      dir_id = dir_id;
      last_access = c.next_access;
    } in
    let back : IdPath = record { dir_id = dir_id; path = path } in
    record (bump c) {
      path_to_entry = delete (has_path path) c.path_to_entry ++ (entry ∷ []);
      id_to_path = delete (has_cached_id dir_id) c.id_to_path ++ (back ∷ []);
    }

-- Above the limit, the entries used longest ago go.
unfoldable pub trim : DirCacheState → DirCacheState
unfolding drop_entries
trim c =
    if leb (length c.path_to_entry) dir_cache_max_entries
    then c
    else drop_entries
        (take (length c.path_to_entry - dir_cache_trim_to_entries)
          (order_by last_access_of c.path_to_entry))
        c

unfoldable pub remember : ℕ → Text → DirCacheState → DirCacheState
unfolding trim
remember dir_id path c =
    if num_eq dir_id root_dir_id || bytes_eq path root then c else trim (insert_both dir_id path c)

unfoldable pub forget : ℕ → Text → DirCacheState → DirCacheState
forget dir_id path c =
    if num_eq dir_id root_dir_id || bytes_eq path root then c else drop_entry dir_id path c

-- A transaction, with the cache that it shares with the ones before and after it.
pub record CentralTx : Type 0 where
  pub inner : CentralDb
  pub dir_cache : DirCacheState

abbrev pub on_inner : {A : Type 0} → Exec CentralDb A → Exec CentralTx A
on_inner m tx = let (r, inner) = m tx.inner in (r, record tx { inner = inner })

abbrev pub on_cache : {A : Type 0} → (DirCacheState → A × DirCacheState) → Exec CentralTx A
on_cache m tx = let (a, cache) = m tx.dir_cache in (ok a, record tx { dir_cache = cache })

abbrev pub change_cache : (DirCacheState → DirCacheState) → Exec CentralTx (Unit {0})
change_cache f = modify (λ tx. record tx { dir_cache = f tx.dir_cache })

abbrev pub has_dir_id : ℕ → DirRow → Bool
has_dir_id dir_id d = num_eq d.dir_id dir_id

abbrev pub parent_is : ℕ → Option ℕ → Bool
parent_is parent none = false
parent_is parent (some p) = num_eq p parent

-- WHERE parent_dir_id = ?1 AND name = ?2
abbrev pub is_child : ℕ → Text → DirRow → Bool
is_child parent name d = parent_is parent d.parent_dir_id && bytes_eq d.name name

abbrev pub is_file_in : ℕ → Text → FileRow → Bool
is_file_in dir_id name f = num_eq f.dir_id dir_id && bytes_eq f.name name

-- The file that has the name is another one than the given one.
abbrev pub is_taken : Option ℕ → Option FileRow → Bool
is_taken existing none = false
is_taken none (some f) = true
is_taken (some id) (some f) = not (num_eq f.file_id id)

unfoldable pub ensure_child_name_available : ℕ → Text → Option ℕ → Text → Exec CentralDb (Unit {0})
ensure_child_name_available parent_dir_id name existing_file_id path = do
  parent ← lift (column parent_dir_id "parent_dir_id")
  db ← gets (λ db. db)
  reject (any (is_child parent name) db.dirs) (already_exists path)
  reject (is_taken existing_file_id (find (is_file_in parent name) db.files)) (already_exists path)

abbrev pub dir_unique_failed : Fs0Error
dir_unique_failed = sqlite (lit "UNIQUE constraint failed: dirs.parent_dir_id, dirs.name" ∷ [])

abbrev pub dir_check_failed : Fs0Error
dir_check_failed = sqlite (lit "CHECK constraint failed" ∷ [])

-- INTEGER PRIMARY KEY: one more than the largest id.
unfoldable pub largest_dir_id : List DirRow → ℕ
largest_dir_id [] = 0
largest_dir_id (d ∷ ds) = max d.dir_id (largest_dir_id ds)

abbrev pub new_dir : ℕ → Text → List DirRow → DirRow
new_dir parent name dirs = record {
  dir_id = largest_dir_id dirs + 1;
  parent_dir_id = some parent;
  name = name;
}

abbrev pub with_dir : ℕ → Text → CentralDb → CentralDb
with_dir parent name db = record db { dirs = db.dirs ++ (new_dir parent name db.dirs ∷ []) }

-- INSERT INTO dirs
unfoldable pub insert_dir : ℕ → Text → Exec CentralDb ℕ
unfolding largest_dir_id
insert_dir parent_dir_id name = do
  parent ← lift (column parent_dir_id "parent_dir_id")
  db ← gets (λ db. db)
  reject (is_empty name) dir_check_failed
  reject (any (is_child parent name) db.dirs) dir_unique_failed
  reject (not (any (has_dir_id parent) db.dirs)) foreign_key_failed
  modify (with_dir parent name)
  pure (largest_dir_id db.dirs + 1)
