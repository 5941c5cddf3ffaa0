-- ===== src/Central/Files/Lookup.antt =====
-- A file that was created is found by its path (db/file.rs).
use fs.Prelude.{
  ℕ, ◌+◌, ◌<◌, ◌≤◌, ◌≡◌, refl, ◌⊎◌, inl, inr, false, Option, none, List, [], ◌∷◌, arith, any, All,
  All-imp, Bool-cases, bytes_eq_iff,
}
use fs.Prelude.Rows.{find-none_of_any, find, find-append_none}
use fs.Core.Constants.{i64_mod}
use fs.Core.Error.{Text, Fs0Error, ok, err, already_exists}
use fs.Core.Convert.{column-cases, column-ok, column-value}
use fs.Core.Paths.{split_fs0_path_dir_and_name}
use fs.Central.Types.{CentralDb, FileRow}
use fs.Central.Leases.{foreign_key_failed}
use fs.Central.Dirs.{
  CentralTx, has_dir_id, is_child, is_file_in, ensure_child_name_available, is_taken,
}
use fs.Central.Dirs.Reference.{resolve}
use fs.Central.Dirs.Resolve.{IsCoherent, IdsFit, get_dir_id_by_path-resolve}
use fs.Central.Files.{
  has_file_id, get_file_by_id, file_unique_failed, file_in_dir, get_file_by_path, with_file,
  insert_file, create_file_in,
}

-- The files have the ids that were given out.
unfoldable pub IsFileTable : CentralDb → Type 0
IsFileTable db = All (λ f. f.file_id ≤ db.file_seq) db.files

pub get_file_by_path-resolve :
    (path dir name : Text) (id : ℕ) (tx : CentralTx)
    → split_fs0_path_dir_and_name path ≡ ok (dir, name)
    → IsCoherent tx
    → IdsFit tx.inner.dirs
    → resolve tx.inner.dirs dir ≡ ok id
    → (get_file_by_path path tx).0 ≡ (file_in_dir id name tx.inner).0
unfolding get_file_by_path
get_file_by_path-resolve path dir name id tx s h fit r =
    let (c, hc, p) = get_dir_id_by_path-resolve dir tx h fit in ground (arith, s, p, r)

find_id-above :
    (n : ℕ) (fs : List FileRow) → All (λ f. f.file_id < n) fs → find (has_file_id n) fs ≡ none
unfolding find
find_id-above n [] h = refl
find_id-above n (f ∷ fs) h = grind (arith, h.0, find_id-above n fs h.1)

ensure-cases :
    (id : ℕ) (name path : Text) (existing : Option ℕ) (db : CentralDb)
    → (ensure_child_name_available id name existing path db ≡ (ok tt, db))
      ⊎ ((e : Fs0Error) × (ensure_child_name_available id name existing path db ≡ (err e, db)))
unfolding ensure_child_name_available
ensure-cases id name path existing db = elim (column-cases id "parent_dir_id") [
  | inr (e, p) ↦ inr (e, ground (arith, p))
  | inl p ↦ elim (Bool-cases (any (is_child id name) db.dirs)) [
    | inl q ↦ inr (already_exists path, ground (arith, p, q))
    | inr q ↦ elim (Bool-cases (is_taken existing (find (is_file_in id name) db.files))) [
      | inl r ↦ inr (already_exists path, ground (arith, p, q, r))
      | inr r ↦ inl (ground (arith, p, q, r))
    ]
  ]
]

unfoldable pub row_of : ℕ → Text → ℕ → ℕ → ℕ → CentralDb → FileRow
row_of id name size compressed now db = record {
  file_id = db.file_seq + 1;
  dir_id = id;
  name = name;
  size_bytes = size;
  compressed_size_bytes = compressed;
  created_at_ms = now;
  updated_at_ms = now;
}

pub row_id :
    (id : ℕ) (name : Text) (size compressed now : ℕ) (db : CentralDb)
    → (row_of id name size compressed now db).file_id ≡ db.file_seq + 1
unfolding row_of
row_id id name size compressed now db = refl

insert_file-cases :
    (id : ℕ) (name : Text) (size compressed now : ℕ) (db : CentralDb)
    → ((insert_file id name size compressed now db
          ≡ (ok (db.file_seq + 1), with_file (row_of id name size compressed now db) db))
        × (any (is_file_in id name) db.files ≡ false))
      ⊎ ((e : Fs0Error) × (insert_file id name size compressed now db ≡ (err e, db)))
unfolding insert_file row_of
insert_file-cases id name size compressed now db =
    elim (Bool-cases (any (is_file_in id name) db.files)) [
      | inl p ↦ inr (file_unique_failed, ground (arith, p))
      | inr p ↦ elim (Bool-cases (any (has_dir_id id) db.dirs)) [
        | inl q ↦ inl (ground (arith, p, q), p)
        | inr q ↦ inr (foreign_key_failed, ground (arith, p, q))
      ]
    ]

get_file_by_id-last :
    (f : FileRow) (db : CentralDb)
    → IsFileTable db
    → db.file_seq < f.file_id
    → (get_file_by_id f.file_id (with_file f db) ≡ (ok f, with_file f db))
      ⊎ ((e : Fs0Error) × (get_file_by_id f.file_id (with_file f db) ≡ (err e, with_file f db)))
unfolding get_file_by_id IsFileTable find
get_file_by_id-last f db t h = elim (column-cases f.file_id "file_id") [
  | inr (e, p) ↦ inr (e, ground (arith, p))
  | inl p ↦
      let old =
        find_id-above f.file_id db.files (All-imp _ _ db.files (λ g k. omega (arith, k, h)) t) in
      inl (ground (arith, p, find-append_none (has_file_id f.file_id) db.files (f ∷ []) old))
]

pub create_file_in-ok :
    (id : ℕ) (name path : Text) (now : ℕ) (db : CentralDb) (f : FileRow)
    → IsFileTable db
    → (create_file_in id name path now db).0 ≡ ok f
    → (create_file_in id name path now db ≡ (ok f, with_file f db))
      × (f ≡ row_of id name 0 0 now db)
      × (any (is_file_in id name) db.files ≡ false)
      × (id < i64_mod)
unfolding create_file_in
create_file_in-ok id name path now db f t h = elim (ensure-cases id name path none db) [
  | inr (e, p) ↦ absurd (ground (arith, p, h))
  | inl p ↦ elim (column-cases id "dir_id") [
    | inr (e, q) ↦ absurd (ground (arith, p, q, h))
    | inl q ↦ elim (column-cases now "created_at_ms") [
      | inr (e, r) ↦ absurd (ground (arith, p, q, r, h))
      | inl r ↦ elim (insert_file-cases id name 0 0 now db) [
        | inr (e, u) ↦ absurd (ground (arith, p, q, r, u, h))
        | inl (u, free) ↦
            elim (get_file_by_id-last (row_of id name 0 0 now db) db t
              (unfold row_of in omega arith)) [
                | inr (e, v) ↦ absurd (ground (arith, p, q, r, u, v, h, row_id id name 0 0 now db))
                | inl v ↦
                    same_row (ground (arith, p, q, r, u, v, row_id id name 0 0 now db)) free
                      ((column-value id "dir_id" id q).1)
              ]
      ]
    ]
  ]
]
  where
    row : FileRow
    row = row_of id name 0 0 now db

    same_row :
        create_file_in id name path now db ≡ (ok row, with_file row db)
        → any (is_file_in id name) db.files ≡ false
        → id < i64_mod
        → (create_file_in id name path now db ≡ (ok f, with_file f db))
          × (f ≡ row)
          × (any (is_file_in id name) db.files ≡ false)
          × (id < i64_mod)
    same_row p free k = let e : f ≡ row = ground (arith, p, h) in (rw e p, e, free, k)

pub file_in_dir-last :
    (id : ℕ) (name : Text) (f : FileRow) (db : CentralDb)
    → f.dir_id ≡ id
    → f.name ≡ name
    → id < i64_mod
    → any (is_file_in id name) db.files ≡ false
    → (file_in_dir id name (with_file f db)).0 ≡ ok f
unfolding file_in_dir find
file_in_dir-last id name f db p q k free = grind (
  arith,
  column-ok id "dir_id" k,
  find-append_none (is_file_in id name) db.files (f ∷ [])
      (find-none_of_any (is_file_in id name) db.files free),
  p,
  q,
  (bytes_eq_iff f.name name).1 q,
)
