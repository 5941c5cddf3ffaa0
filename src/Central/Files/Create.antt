-- ===== src/Central/Files/Create.antt =====
-- A file that was created is found by its path (db/file.rs).
use fs.Prelude.{ℕ, ◌+◌, ◌<◌, ◌≡◌, ◌⊎◌, refl, ap, ◌∙◌, inl, inr, false, arith, any}
use fs.Core.Constants.{i64_mod}
use fs.Core.Error.{Text, Fs0Error, Fs0Result, ok, err, Result-cases}
use fs.Core.Paths.{split_fs0_path_dir_and_name}
use fs.Central.Types.{CentralDb, FileRow}
use fs.Central.Dirs.{CentralTx, is_file_in}
use fs.Central.Dirs.Walk.{create_dir}
use fs.Central.Dirs.Reference.{resolve}
use fs.Central.Dirs.Resolve.{IsCoherent, IdsFit}
use fs.Central.Dirs.Tree.{IsTree}
use fs.Central.Dirs.Create.{Grows, create_dir-resolve}
use fs.Central.Files.{get_file_by_path, with_file, create_file_in, create_file}
use fs.Central.Files.Lookup.{
  IsFileTable, row_of, create_file_in-ok, file_in_dir-last, get_file_by_path-resolve,
}

-- What a successful `create_file` did.
record IsCreated (path : Text) (now : ℕ) (tx : CentralTx) (f : FileRow) : Type 0 where
  dir : Text
  name : Text
  id : ℕ
  parts : split_fs0_path_dir_and_name path ≡ ok (dir, name)
  made : (create_dir dir tx).0 ≡ ok id
  done : (create_file_in id name path now (create_dir dir tx).1.inner).0 ≡ ok f
  same : create_file path now tx ≡ (
    (create_file_in id name path now (create_dir dir tx).1.inner).0,
    record (create_dir dir tx).1 {
      inner = (create_file_in id name path now (create_dir dir tx).1.inner).1;
    },
  )

create_file-IsCreated :
    (path : Text) (now : ℕ) (tx : CentralTx) (f : FileRow)
    → (create_file path now tx).0 ≡ ok f
    → IsCreated path now tx f
unfolding create_file
create_file-IsCreated path now tx f h = elim (Result-cases (split_fs0_path_dir_and_name path)) [
  | inr (e, p) ↦ absurd (ground (arith, p, h))
  | inl ((dir, name), p) ↦ elim (Result-cases (create_dir dir tx).0) [
    | inr (e, q) ↦ absurd (ground (arith, p, q, h))
    | inl (id, q) ↦ record {
      dir = dir;
      name = name;
      id = id;
      parts = p;
      made = q;
      done = ground (arith, p, q, h);
      same = ground (arith, p, q);
    }
  ]
]

old_files : (tx mid : CentralTx) → Grows tx mid → IsFileTable tx.inner → IsFileTable mid.inner
unfolding IsFileTable
old_files tx mid g h = rw g.0.1 h

same_id :
    (tx : CentralTx) (dir : Text) (id : ℕ)
    → (create_dir dir tx).0 ≡ ok id
    → ((e : Fs0Error) × ((create_dir dir tx).0 ≡ err e))
      ⊎ ((i : ℕ) × ((create_dir dir tx).0 ≡ ok i)
          × (resolve (create_dir dir tx).1.inner.dirs dir ≡ ok i))
    → resolve (create_dir dir tx).1.inner.dirs dir ≡ ok id
same_id tx dir id p (inl (e, q)) = absurd (ground (arith, p, q))
same_id tx dir id p (inr (i, q, r)) = ground (arith, p, q, r)

found :
    (path : Text) (now : ℕ) (dir name : Text) (id : ℕ) (f : FileRow) (mid : CentralTx)
    → split_fs0_path_dir_and_name path ≡ ok (dir, name)
    → IsCoherent mid
    → IdsFit mid.inner.dirs
    → resolve mid.inner.dirs dir ≡ ok id
    → f ≡ row_of id name 0 0 now mid.inner
    → any (is_file_in id name) mid.inner.files ≡ false
    → id < i64_mod
    → (get_file_by_path path (record mid { inner = with_file f mid.inner })).0 ≡ ok f
found path now dir name id f mid p h fit r row free k =
    get_file_by_path-resolve path dir name id (record mid { inner = with_file f mid.inner }) p
      (unfold IsCoherent in h) fit r
    ∙ file_in_dir-last id name f mid.inner
        (ap (λ (r : FileRow). r.dir_id) row ∙ unfold row_of in refl)
        (ap (λ (r : FileRow). r.name) row ∙ unfold row_of in refl) k free

-- From a coherent cache and a table that is a tree, a file that `create_file` made is empty, has the
-- time and an id of its own, and `get_file_by_path` finds it under the path that it was made for.
pub get_file_by_path-create_file :
    (path : Text) (now : ℕ) (tx : CentralTx) (f : FileRow)
    → IsCoherent tx
    → IsTree tx.inner.dirs
    → IsFileTable tx.inner
    → IdsFit (create_file path now tx).1.inner.dirs
    → (create_file path now tx).0 ≡ ok f
    → ((get_file_by_path path (create_file path now tx).1).0 ≡ ok f)
      × (f.file_id ≡ tx.inner.file_seq + 1)
      × (f.size_bytes ≡ 0)
      × (f.created_at_ms ≡ now)
      × IsCoherent (create_file path now tx).1
      × IsTree (create_file path now tx).1.inner.dirs
get_file_by_path-create_file path now tx f h t files fit e =
    let m = create_file-IsCreated path now tx f e in
    let (g, o) = create_dir-resolve m.dir tx h t in
    let mid : CentralTx = (create_dir m.dir tx).1 in
    let (q, row, free, k) =
      create_file_in-ok m.id m.name path now mid.inner f (old_files tx mid g files) m.done in
    let whole : create_file path now tx ≡ (ok f, record mid { inner = with_file f mid.inner }) =
      m.same ∙ ap (λ (r : Fs0Result FileRow × CentralDb). (r.0, record mid { inner = r.1 })) q in
    let led : resolve mid.inner.dirs m.dir ≡ ok m.id = same_id tx m.dir m.id m.made o in
    rw whole (
      found path now m.dir m.name m.id f mid m.parts g.2 (rw whole at fit) led row free k,
      ap (λ (r : FileRow). r.file_id) row
          ∙ unfold row_of in ap (λ (d : CentralDb). d.file_seq + 1) g.0.1,
      ap (λ (r : FileRow). r.size_bytes) row ∙ unfold row_of in refl,
      ap (λ (r : FileRow). r.created_at_ms) row ∙ unfold row_of in refl,
      unfold IsCoherent in g.2,
      g.3,
    )
