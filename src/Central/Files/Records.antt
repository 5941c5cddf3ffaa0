-- ===== src/Central/Files/Records.antt =====
-- The reading of a file and of its record (db/file.rs, db/dir.rs): what the state keeps.
use fs.Prelude.{ℕ, suc, ◌≡◌, arith, inl, inr, Option-cases}
use fs.Prelude.Rows.{find}
use fs.Core.Error.{ok, Result-cases}
use fs.Core.Convert.{column-cases}
use fs.Core.Paths.{join_fs0_path}
use fs.Core.Protocol.{FileRecord}
use fs.Central.Types.{CentralDb, FileRow}
use fs.Central.Dirs.{CentralTx, get_path}
use fs.Central.Dirs.Names.{names_above}
use fs.Central.Dirs.Walk.{get_dir_path_by_id, file_record}
use fs.Central.Files.{has_file_id, get_file_by_id}

pub get_file_by_id_state : (id : ℕ) (db : CentralDb) → (get_file_by_id id db).1 ≡ db
unfolding get_file_by_id
get_file_by_id_state id db = elim (column-cases id "file_id") [
  | inr (e, p) ↦ ground (arith, p)
  | inl p ↦ elim (Option-cases (find (has_file_id id) db.files)) [
    | inl q ↦ ground (arith, p, q)
    | inr (f, q) ↦ ground (arith, p, q)
  ]
]

pub get_dir_path_by_id-inner :
    (id : ℕ) (tx : CentralTx) → (get_dir_path_by_id id tx).1.inner ≡ tx.inner
unfolding get_dir_path_by_id
get_dir_path_by_id-inner id tx = elim (Option-cases (get_path id tx.dir_cache).0) [
  | inr (p, f) ↦ ground (arith, f)
  | inl f ↦ elim (Result-cases (names_above (suc id) tx.inner.dirs id)) [
    | inl (ns, p) ↦ ground (arith, f, p)
    | inr (e, p) ↦ ground (arith, f, p)
  ]
]

pub file_record-size :
    (f : FileRow) (tx : CentralTx) (r : FileRecord)
    → (file_record f tx).0 ≡ ok r
    → r.size_bytes ≡ f.size_bytes
unfolding file_record
file_record-size f tx r h = elim (Result-cases (get_dir_path_by_id f.dir_id tx).0) [
  | inr (e, p) ↦ absurd (ground (arith, p, h))
  | inl (dir, p) ↦ elim (Result-cases (join_fs0_path dir f.name)) [
    | inr (e, q) ↦ absurd (ground (arith, p, q, h))
    | inl (path, q) ↦ ground (arith, p, q, h)
  ]
]

pub file_record-inner : (f : FileRow) (tx : CentralTx) → (file_record f tx).1.inner ≡ tx.inner
unfolding file_record
file_record-inner f tx = elim (Result-cases (get_dir_path_by_id f.dir_id tx).0) [
  | inr (e, p) ↦ ground (arith, p, get_dir_path_by_id-inner f.dir_id tx)
  | inl (dir, p) ↦ elim (Result-cases (join_fs0_path dir f.name)) [
    | inr (e, q) ↦ ground (arith, p, q, get_dir_path_by_id-inner f.dir_id tx)
    | inl (path, q) ↦ ground (arith, p, q, get_dir_path_by_id-inner f.dir_id tx)
  ]
]
