-- ===== src/Central/Dirs/Names.antt =====
-- crates/fs0-central/src/db/dir.rs: the names above a directory, and the entries of one.
use fs.Prelude.{ℕ, zero, suc, true, false, none, some, List, [], ◌∷◌, ◌++◌, num_eq}
use fs.Prelude.Rows.{find}
use fs.Core.Error.{Text, Fs0Result, ok, err, lit, num, ok_or, not_found, invalid_data, ◌>>=◌}
use fs.Core.Convert.{column}
use fs.Core.Paths.{slash, join_fs0_path}
use fs.Core.Protocol.{DirectoryEntry}
use fs.Central.Types.{DirRow, FileRow, root_dir_id}
use fs.Central.Dirs.{has_dir_id}

-- The names from a directory up to the root, the lowest first. Every step up is to a smaller id in a
-- valid table, so that the id is fuel enough.
unfoldable pub names_above : ℕ → List DirRow → ℕ → Fs0Result (List Text)
names_above zero dirs dir_id = err not_found
names_above (suc fuel) dirs dir_id = do
  id ← column dir_id "dir_id"
  d ← ok_or (find (has_dir_id id) dirs) not_found
  elim (num_eq d.dir_id root_dir_id) [
    | true ↦ ok []
    | false ↦ elim d.parent_dir_id [
      | none ↦ err (invalid_data (lit "dir " ∷ num dir_id ∷ lit " has no parent" ∷ []))
      | some parent ↦ do names ← names_above fuel dirs parent; ok (d.name ∷ names)
    ]
  ]

-- `names.reverse()`
unfoldable pub reverse_onto : List Text → List Text → List Text
reverse_onto [] acc = acc
reverse_onto (n ∷ ns) acc = reverse_onto ns (n ∷ acc)

-- `names.join("/")`
unfoldable pub join : List Text → Text
join [] = []
join (n ∷ []) = n
join (n ∷ m ∷ ns) = n ++ (slash ∷ join (m ∷ ns))

abbrev pub directory_entry : FileRow → Text → DirectoryEntry
directory_entry f path = record {
  name = f.name;
  path = path;
  file_id = f.file_id;
  size_bytes = f.size_bytes;
  compressed_size_bytes = f.compressed_size_bytes;
  created_at_ms = f.created_at_ms;
  updated_at_ms = f.updated_at_ms;
}

unfoldable pub directory_entries : Text → List FileRow → Fs0Result (List DirectoryEntry)
directory_entries dir [] = ok []
directory_entries dir (f ∷ fs) = do
  path ← join_fs0_path dir f.name
  rest ← directory_entries dir fs
  ok (directory_entry f path ∷ rest)
