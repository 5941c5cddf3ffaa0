-- ===== src/Central/Updates/Commit/Done.antt =====
-- A commit that succeeded, as a whole.
use fs.Prelude.{
  ℕ, ◌<◌, ◌≤◌, ◌≡◌, ap, ◌∙◌, ltb, ltb-false→le, Option, none, some, arith, inl, inr, Bool-cases,
  Option-cases, num_eq, num_eq_iff,
}
use mathlib.Core.Path.{sym}
use fs.Prelude.Rows.{find, find-delete, find-where}
use fs.Core.Error.{Text, Fs0Result, ok, Result-cases}
use fs.Core.Convert.{column-cases}
use fs.Core.Exec.{Exec}
use fs.Core.Protocol.{FileChangeLogKind, CommitUpdateRequest, FileRecord}
use fs.Central.Types.{CentralDb, FileRow, LeaseRow, LeaseRecord}
use fs.Central.Leases.{
  has_lease_id, is_active, find_active, load_active_update_lease, delete_update_lease,
}
use fs.Central.Dirs.{CentralTx}
use fs.Central.Dirs.Walk.{get_dir_path_by_id}
use fs.Central.Files.Records.{get_dir_path_by_id-inner, file_record-size, file_record-inner}
use fs.Central.Files.{has_file_id, get_file_by_id}
use fs.Central.Events.{insert_file_change_log}
use fs.Central.Updates.Commit.{
  check_file, store_bundles, kind_of_update, map_expired, log_and_record, commit_tx,
}
use fs.Central.Updates.Commit.Sizes.{IsChecked, IsSized, store_bundles-IsChecked}

-- What the log and the reading of a record leave as it is.
abbrev Keeps : CentralDb → CentralDb → Type 0
Keeps before after = (after.update_leases ≡ before.update_leases) × (after.files ≡ before.files)

insert_file_change_log-Keeps :
    (kind : FileChangeLogKind) (target : Option (Text × Text)) (id : ℕ) (now : ℕ) (db : CentralDb)
    → Keeps db (insert_file_change_log kind target (some id) now db).1
unfolding insert_file_change_log
insert_file_change_log-Keeps kind target id now db = elim (column-cases id "file_id") [
  | inr (e, p) ↦ ground (arith, p)
  | inl p ↦ elim (column-cases now "created_at_ms") [
    | inr (e, q) ↦ ground (arith, p, q)
    | inl q ↦ ground (arith, p, q)
  ]
]

module _ (lease : LeaseRecord) (file f : FileRow) (now : ℕ) (tx : CentralTx) where
  abbrev entry : Text → Exec CentralDb (Unit {0})
  entry dir =
      insert_file_change_log (kind_of_update file) (some (dir, file.name)) (some lease.file_id) now

  log_and_record-Keeps : Keeps tx.inner (log_and_record lease file f now tx).1.inner
  unfolding log_and_record
  log_and_record-Keeps =
      let s1 : CentralTx = (get_dir_path_by_id file.dir_id tx).1 in
      let same = get_dir_path_by_id-inner file.dir_id tx in
      elim (Result-cases (get_dir_path_by_id file.dir_id tx).0) [
        | inr (e, p) ↦ ground (arith, p, same)
        | inl (dir, p) ↦
            let s2 : CentralTx = record s1 { inner = (entry dir s1.inner).1 } in
            let logged =
              insert_file_change_log-Keeps (kind_of_update file) (some (dir, file.name))
                lease.file_id now s1.inner in
            elim (Result-cases (entry dir s1.inner).0) [
              | inr (e, q) ↦ ground (arith, p, q, same, logged)
              | inl (u, q) ↦ ground (arith, p, q, same, logged, file_record-inner f s2)
            ]
      ]

  log_and_record-size :
      (r : FileRecord) → (log_and_record lease file f now tx).0 ≡ ok r → r.size_bytes ≡ f.size_bytes
  unfolding log_and_record
  log_and_record-size r h =
      let s1 : CentralTx = (get_dir_path_by_id file.dir_id tx).1 in
      elim (Result-cases (get_dir_path_by_id file.dir_id tx).0) [
        | inr (e, p) ↦ absurd (ground (arith, p, h))
        | inl (dir, p) ↦
            let s2 : CentralTx = record s1 { inner = (entry dir s1.inner).1 } in
            elim (Result-cases (entry dir s1.inner).0) [
              | inr (e, q) ↦ absurd (ground (arith, p, q, h))
              | inl (u, q) ↦ file_record-size f s2 r (ground (arith, p, q, h))
            ]
      ]

-- The lease that a commit loads is the active one of its id and file, with the row's numbers.
abbrev Loads : CommitUpdateRequest → ℕ → CentralDb → LeaseRecord → LeaseRow → Type 0
Loads request now db l row =
    (find (is_active request.lease_id request.file_id now) db.update_leases ≡ some row)
    × (l.file_id ≡ row.file_id)
    × (l.base_size_bytes ≡ row.base_size_bytes)
    × (l.offset_bytes ≡ row.offset_bytes)

abbrev load_lease : CommitUpdateRequest → ℕ → Exec CentralDb LeaseRecord
load_lease request now =
    map_expired request.lease_id request.file_id
      (load_active_update_lease request.lease_id request.file_id now)

load_lease-Loads :
    (request : CommitUpdateRequest) (now : ℕ) (db : CentralDb) (l : LeaseRecord)
    → (load_lease request now db).0 ≡ ok l
    → (row : LeaseRow) × Loads request now db l row
unfolding load_active_update_lease find_active
load_lease-Loads request now db l h = elim (column-cases request.lease_id "lease_id") [
  | inr (e, p) ↦ absurd (grind (arith, p, h))
  | inl p ↦ elim (column-cases request.file_id "file_id") [
    | inr (e, q) ↦ absurd (grind (arith, p, q, h))
    | inl q ↦ elim (column-cases now "now_ms") [
      | inr (e, r) ↦ absurd (grind (arith, p, q, r, h))
      | inl r ↦
          elim (Option-cases
            (find (is_active request.lease_id request.file_id now) db.update_leases)) [
              | inl u ↦ absurd (grind (arith, p, q, r, u, h))
              | inr (row, u) ↦ (
                row,
                (
                  u,
                  ground (arith, p, q, r, u, h),
                  ground (arith, p, q, r, u, h),
                  ground (arith, p, q, r, u, h),
                ),
              )
            ]
    ]
  ]
]

lease_state :
    (request : CommitUpdateRequest) (now : ℕ) (db : CentralDb)
    → (map_expired request.lease_id request.file_id
        (load_active_update_lease request.lease_id request.file_id now)
        db).1
      ≡ db
unfolding load_active_update_lease find_active
lease_state request now db = grind (
  arith,
  column-cases request.lease_id "lease_id",
  column-cases request.file_id "file_id",
  column-cases now "now_ms",
  Option-cases (find (is_active request.lease_id request.file_id now) db.update_leases),
)

get_file_by_id-found :
    (id : ℕ) (db : CentralDb) (f : FileRow)
    → (get_file_by_id id db).0 ≡ ok f
    → (find (has_file_id id) db.files ≡ some f) × (get_file_by_id id db ≡ (ok f, db))
unfolding get_file_by_id
get_file_by_id-found id db f h = elim (column-cases id "file_id") [
  | inr (e, p) ↦ absurd (ground (arith, p, h))
  | inl p ↦ elim (Option-cases (find (has_file_id id) db.files)) [
    | inl q ↦ absurd (ground (arith, p, q, h))
    | inr (g, q) ↦ (ground (arith, p, q, h), ground (arith, p, q, h))
  ]
]

-- What the checks of the lease and of the file establish: the row of the active lease that the
-- request names, and the row of its file.
abbrev pub IsCurrent : CommitUpdateRequest → ℕ → CentralDb → LeaseRow → FileRow → Type 0
IsCurrent request now db lease file =
    (find (is_active request.lease_id request.file_id now) db.update_leases ≡ some lease)
    × (lease.lease_id ≡ request.lease_id)
    × (lease.file_id ≡ request.file_id)
    × (now < lease.expires_at_ms)
    × (lease.base_size_bytes ≡ request.base_size)
    × (lease.offset_bytes ≤ request.new_size)
    × (find (has_file_id request.file_id) db.files ≡ some file)
    × (file.size_bytes ≡ request.base_size)

Loads-IsCurrent :
    (request : CommitUpdateRequest) (now : ℕ) (db : CentralDb) (l : LeaseRecord) (row : LeaseRow)
    (file : FileRow)
    → Loads request now db l row
    → l.base_size_bytes ≡ request.base_size
    → l.offset_bytes ≤ request.new_size
    → find (has_file_id l.file_id) db.files ≡ some file
    → file.size_bytes ≡ request.base_size
    → (l.file_id ≡ request.file_id) × IsCurrent request now db row file
Loads-IsCurrent request now db l row file (found, of_file, base, offset) b o f size =
    let active = find-where (is_active request.lease_id request.file_id now) _ row found in
    let same : row.file_id ≡ request.file_id = grind (arith, active) in
    (
      of_file ∙ same,
      (
        found,
        grind (arith, active),
        same,
        grind (arith, active),
        omega (arith, base, b),
        omega (arith, offset, o),
        rw (of_file, same) at f,
        size,
      ),
    )

check_file-IsCurrent :
    (request : CommitUpdateRequest) (now_load : ℕ) (db : CentralDb) (lease : LeaseRecord)
    (file : FileRow)
    → (check_file request now_load db).0 ≡ ok (lease, file)
    → (check_file request now_load db ≡ (ok (lease, file), db))
      × (lease.file_id ≡ request.file_id)
      × (row : LeaseRow) × IsCurrent request now_load db row file
unfolding check_file
check_file-IsCurrent request now_load db lease file h =
    let same = lease_state request now_load db in
    elim (Result-cases (load_lease request now_load db).0) [
      | inr (e, p) ↦ absurd (ground (arith, p, h))
      | inl (l, p) ↦ elim (Bool-cases (num_eq l.base_size_bytes request.base_size)) [
        | inr q ↦ absurd (ground (arith, p, q, h))
        | inl q ↦ elim (Bool-cases (ltb request.new_size l.offset_bytes)) [
          | inl r ↦ absurd (ground (arith, p, q, r, h))
          | inr r ↦ elim (Result-cases (get_file_by_id l.file_id db).0) [
            | inr (e, u) ↦ absurd (ground (arith, p, q, r, same, u, h))
            | inl (g, u) ↦
                let (found, v) = get_file_by_id-found l.file_id db g u in
                elim (Bool-cases (num_eq g.size_bytes request.base_size)) [
                  | inr w ↦ absurd (ground (arith, p, q, r, same, v, w, h))
                  | inl w ↦
                      let (row, loads) = load_lease-Loads request now_load db l p in
                      let (id, current) =
                        Loads-IsCurrent request now_load db l row g loads
                          ((num_eq_iff l.base_size_bytes request.base_size).0 q)
                          (ltb-false→le request.new_size l.offset_bytes r) found
                          ((num_eq_iff g.size_bytes request.base_size).0 w) in
                      renamed l g row (ground (arith, p, q, r, same, v, w)) id current
                ]
          ]
        ]
      ]
    ]
  where
    renamed :
        (l : LeaseRecord) (g : FileRow) (row : LeaseRow)
        → check_file request now_load db ≡ (ok (l, g), db)
        → l.file_id ≡ request.file_id
        → IsCurrent request now_load db row g
        → (check_file request now_load db ≡ (ok (lease, file), db))
          × (lease.file_id ≡ request.file_id)
          × (row : LeaseRow) × IsCurrent request now_load db row file
    renamed l g row p id c =
        let e : l ≡ lease = ground (arith, p, h) in
        let f : g ≡ file = ground (arith, p, h) in rw (← e, ← f) (p, id, row, c)

-- What a commit that succeeded has checked and done, from the tables before and after it.
pub record IsCommitted (request : CommitUpdateRequest) (now_load : ℕ) (before after : CentralDb)
    (r : FileRecord) : Type 0 where
  pub lease : LeaseRow
  pub file : FileRow
  pub current : IsCurrent request now_load before lease file
  pub checked : IsChecked request before
  pub stored : FileRow
  pub resized : IsSized request.file_id request.new_size stored after
  pub answered : r.size_bytes ≡ request.new_size
  pub ended : find (has_lease_id request.lease_id) after.update_leases ≡ none

delete_update_lease-ended :
    (id : ℕ) (db : CentralDb)
    → (delete_update_lease id db).0 ≡ ok tt
    → (find (has_lease_id id) (delete_update_lease id db).1.update_leases ≡ none)
      × ((delete_update_lease id db).1.files ≡ db.files)
unfolding delete_update_lease
delete_update_lease-ended id db h = elim (column-cases id "lease_id") [
  | inr (e, p) ↦ absurd (ground (arith, p, h))
  | inl p ↦ (ground (arith, p, find-delete (has_lease_id id) db.update_leases), ground (arith, p))
]

pub commit_tx-IsCommitted :
    (request : CommitUpdateRequest) (now now_load : ℕ) (tx : CentralTx) (r : FileRecord)
    → (commit_tx request now now_load tx).0 ≡ ok r
    → IsCommitted request now_load tx.inner (commit_tx request now now_load tx).1.inner r
unfolding commit_tx
commit_tx-IsCommitted request now now_load tx r h =
    elim (Result-cases (check_file request now_load tx.inner).0) [
      | inr (e, p) ↦ absurd (ground (arith, p, h))
      | inl ((lease, file), p) ↦
          let (q, id, row, current) = check_file-IsCurrent request now_load tx.inner lease file p in
          let stored : Fs0Result FileRow × CentralDb = store_bundles request lease now tx.inner in
          elim (Result-cases stored.0) [
            | inr (e, u) ↦ absurd (ground (arith, q, u, h))
            | inl (f, u) ↦
                let ended : Fs0Result (Unit {0}) × CentralDb =
                  delete_update_lease request.lease_id stored.1 in
                elim (Result-cases ended.0) [
                  | inr (e, v) ↦ absurd (ground (arith, q, u, v, h))
                  | inl (done, v) ↦
                      let last : CentralTx = record tx { inner = ended.1 } in
                      let whole : commit_tx request now now_load tx
                          ≡ log_and_record lease file f now last =
                        ground (arith, q, u, v) in
                      let (checked, size) =
                        store_bundles-IsChecked request lease now tx.inner f u in
                      let (kept, files) = log_and_record-Keeps lease file f now last in
                      let (gone, same) = delete_update_lease-ended request.lease_id stored.1 v in
                      rw whole (record {
                        lease = row;
                        file = file;
                        current = current;
                        checked = checked;
                        stored = f;
                        resized = (
                          ap (find (has_file_id request.file_id)) (files ∙ same)
                              ∙ (ap (λ n. find (has_file_id n) stored.1.files) (sym id) ∙ size.0),
                          size.1,
                        );
                        answered =
                            log_and_record-size lease file f now last r (ground (arith, whole, h))
                            ∙ size.1;
                        ended = ap (find (has_lease_id request.lease_id)) kept ∙ gone;
                      })
                ]
          ]
    ]
