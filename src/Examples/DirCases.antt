-- ===== src/Examples/DirCases.antt =====
-- The theorems on directories and files, on a table with one directory that the cache knows.
use fs.Prelude.{◌+◌, ◌≡◌, inl, inr, refl, some, [], ◌∷◌, arith, bytes_eq}
use fs.Prelude.Rows.{find}
use fs.Core.Convert.{column}
use fs.Core.Error.{Text, ok}
use fs.Core.Paths.{is_bad_component, split_fs0_path_components, split_fs0_path_dir_and_name}
use fs.Central.Types.{empty_db, DirRow, FileRow, root_dir}
use fs.Central.Dirs.{CentralTx, DirCacheState, get_id, ensure_child_name_available}
use fs.Central.Dirs.Walk.{get_dir_id_by_path, create_dir, get_dir_path_by_id}
use fs.Central.Dirs.Cache.{Tells}
use fs.Central.Dirs.Reference.{resolve}
use fs.Central.Dirs.Resolve.{IsCoherent, IdsFit, Answers, get_dir_id_by_path-resolve}
use fs.Central.Dirs.Tree.{IsTree}
use fs.Central.Dirs.Create.{Creates, create_dir-resolve}
use fs.Central.Dirs.Climb.{get_dir_path_by_id-resolve}
use fs.Central.Files.{get_file_by_path, create_file}
use fs.Central.Files.Lookup.{IsFileTable}
use fs.Central.Files.Create.{get_file_by_path-create_file}

abbrev dir_a : DirRow
dir_a = record { dir_id = 1; parent_dir_id = some 0; name = b'a' ∷ [] }

abbrev path_a : Text
path_a = b'/' ∷ b'a' ∷ []

abbrev path_b : Text
path_b = b'/' ∷ b'a' ∷ b'/' ∷ b'b' ∷ []

abbrev cache_a : DirCacheState
cache_a = record {
  path_to_entry = record { path = path_a; dir_id = 1; last_access = 1 } ∷ [];
  id_to_path = record { dir_id = 1; path = path_a } ∷ [];
  next_access = 2;
}

abbrev tx_a : CentralTx
tx_a = record { inner = record empty_db { dirs = root_dir ∷ dir_a ∷ [] }; dir_cache = cache_a }

resolve-path_a : resolve tx_a.inner.dirs path_a ≡ ok 1
unfolding resolve split_fs0_path_components bytes_eq find
resolve-path_a = refl

tx_a-IsCoherent : IsCoherent tx_a
unfolding IsCoherent Tells
tx_a-IsCoherent = ((resolve-path_a, tt), (resolve-path_a, tt))

tx_a-IdsFit : IdsFit tx_a.inner.dirs
unfolding IdsFit
tx_a-IdsFit = (omega arith, (omega arith, tt))

tx_a-IsTree : IsTree tx_a.inner.dirs
unfolding IsTree find is_bad_component bytes_eq
tx_a-IsTree = (
  (
    record { found = refl; placed = inl refl },
    (
      record {
        found = refl;
        placed = inr (record {
          parent = 0;
          has_parent = refl;
          above = omega arith;
          named = record { fits = refl; whole = refl };
          led = refl;
        });
      },
      tt,
    ),
  ),
  refl,
)

get_dir_id_by_path-resolve_example :
    Answers tx_a (resolve tx_a.inner.dirs path_a) (get_dir_id_by_path path_a tx_a)
get_dir_id_by_path-resolve_example =
    get_dir_id_by_path-resolve path_a tx_a tx_a-IsCoherent tx_a-IdsFit

create_dir-resolve_example : Creates path_b tx_a (create_dir path_b tx_a)
create_dir-resolve_example = create_dir-resolve path_b tx_a tx_a-IsCoherent tx_a-IsTree

get_dir_path_by_id-resolve_example : Answers tx_a (ok path_a) (get_dir_path_by_id 1 tx_a)
get_dir_path_by_id-resolve_example =
    get_dir_path_by_id-resolve path_a 1 tx_a tx_a-IsCoherent tx_a-IsTree tx_a-IdsFit resolve-path_a

abbrev file_b : FileRow
file_b = record {
  file_id = 1;
  dir_id = 1;
  name = b'b' ∷ [];
  size_bytes = 0;
  compressed_size_bytes = 0;
  created_at_ms = 7;
  updated_at_ms = 7;
}

tx_a-IsFileTable : IsFileTable tx_a.inner
unfolding IsFileTable
tx_a-IsFileTable = tt

created_b : (create_file path_b 7 tx_a).0 ≡ ok file_b
unfolding create_file split_fs0_path_dir_and_name bytes_eq create_dir get_id find
    ensure_child_name_available column
created_b = refl

created_b-IdsFit : IdsFit (create_file path_b 7 tx_a).1.inner.dirs
unfolding create_file IdsFit split_fs0_path_dir_and_name bytes_eq create_dir get_id find
    ensure_child_name_available column
created_b-IdsFit = (omega arith, (omega arith, tt))

get_file_by_path-create_file_example :
    ((get_file_by_path path_b (create_file path_b 7 tx_a).1).0 ≡ ok file_b)
    × (file_b.file_id ≡ tx_a.inner.file_seq + 1)
    × (file_b.size_bytes ≡ 0)
    × (file_b.created_at_ms ≡ 7)
    × IsCoherent (create_file path_b 7 tx_a).1
    × IsTree (create_file path_b 7 tx_a).1.inner.dirs
get_file_by_path-create_file_example =
    get_file_by_path-create_file path_b 7 tx_a file_b tx_a-IsCoherent tx_a-IsTree tx_a-IsFileTable
      created_b-IdsFit created_b
