-- ===== src/Central/Updates/Commit/Sizes.antt =====
-- What a commit has checked and done when it succeeds.
use fs.Prelude.{
  ℕ, ◌+◌, ◌≡◌, some, List, [], ◌∷◌, arith, inl, inr, Bool-cases, Option-cases, map, any, All,
  num_eq, num_eq_iff,
}
use fs.Prelude.Rows.{find, update, sum_by}
use fs.Core.Error.{Fs0Result, ok, Result-cases}
use fs.Core.Convert.{column-cases, checked_add}
use fs.Core.Protocol.{CommitUpdateRequest, CommittedBundle}
use fs.Central.Types.{CentralDb, FileRow, LeaseRecord, BundleReplicaRow}
use fs.Central.FileBundles.{
  has_bundle, or_insert_all, upsert_file_bundles_by_file_id, calculate_size_by_file_id,
}
use fs.Central.Replicas.{get_bundle_replicas_by_id}
use fs.Central.Files.{has_file_id, resized, get_file_by_id, update_file_after_update}
use fs.Central.Updates.Commit.{
  submitted_size, replace_bundles, store_bundles, same_length, submitted_overflow,
}

abbrev pub raw_len_of : CommittedBundle → ℕ
raw_len_of b = b.raw_len

-- The loop adds up the lengths, all of which are those of stored replicas.
abbrev pub IsStored : List BundleReplicaRow → CommittedBundle → Type 0
IsStored ready b =
    (r : BundleReplicaRow) × (find (has_bundle b.bundle_id) ready ≡ some r)
    × (r.raw_len ≡ b.raw_len)

submitted_size-IsStored :
    (ready : List BundleReplicaRow) (total n : ℕ) (bs : List CommittedBundle) (db : CentralDb)
    → (submitted_size ready total bs db).0 ≡ ok n
    → All (IsStored ready) bs
unfolding submitted_size
submitted_size-IsStored ready total n [] db h = tt
submitted_size-IsStored ready total n (b ∷ bs) db h =
    elim (Option-cases (find (has_bundle b.bundle_id) ready)) [
      | inl p ↦ absurd (ground (arith, p, h))
      | inr (stored, p) ↦ elim (Bool-cases (same_length stored b)) [
        | inr q ↦ absurd (ground (arith, p, q, h))
        | inl q ↦ elim (Result-cases (checked_add total b.raw_len submitted_overflow)) [
          | inr (e, r) ↦ absurd (ground (arith, p, q, r, h))
          | inl (m, r) ↦ (
            (stored, p, (num_eq_iff stored.raw_len b.raw_len).0 q),
            submitted_size-IsStored ready m n bs db (ground (arith, p, q, r, h)),
          )
        ]
      ]
    ]

submitted_size-sum :
    (ready : List BundleReplicaRow) (total n : ℕ) (bs : List CommittedBundle) (db : CentralDb)
    → (submitted_size ready total bs db).0 ≡ ok n
    → n ≡ total + sum_by raw_len_of bs
unfolding submitted_size sum_by
submitted_size-sum ready total n [] db h = grind (arith, h)
submitted_size-sum ready total n (b ∷ bs) db h =
    elim (Option-cases (find (has_bundle b.bundle_id) ready)) [
      | inl p ↦ absurd (ground (arith, p, h))
      | inr (stored, p) ↦ elim (Bool-cases (same_length stored b)) [
        | inr q ↦ absurd (ground (arith, p, q, h))
        | inl q ↦ elim (Result-cases (checked_add total b.raw_len submitted_overflow)) [
          | inr (e, r) ↦ absurd (ground (arith, p, q, r, h))
          | inl (m, r) ↦
              let step = submitted_size-sum ready m n bs db (ground (arith, p, q, r, h)) in
              let sum : m ≡ total + b.raw_len = ground (arith, r) in omega (arith, step, sum)
        ]
      ]
    ]

find-resized :
    (id size compressed now : ℕ) (fs : List FileRow) (f : FileRow)
    → find (has_file_id id) (update (has_file_id id) (resized size compressed now) fs) ≡ some f
    → f.size_bytes ≡ size
unfolding find update
find-resized id size compressed now [] f h = absurd (ground (arith, h))
find-resized id size compressed now (g ∷ gs) f h =
    grind (arith, h, find-resized id size compressed now gs f)

-- The table has the file, with the size.
abbrev pub IsSized : ℕ → ℕ → FileRow → CentralDb → Type 0
IsSized id size f db = (find (has_file_id id) db.files ≡ some f) × (f.size_bytes ≡ size)

update_file_after_update-IsSized :
    (id size compressed now : ℕ) (db : CentralDb) (f : FileRow)
    → (update_file_after_update id size compressed now db).0 ≡ ok f
    → IsSized id size f (update_file_after_update id size compressed now db).1
unfolding update_file_after_update get_file_by_id
update_file_after_update-IsSized id size compressed now db f h = elim (column-cases id "file_id") [
  | inr (e, p) ↦ absurd (ground (arith, p, h))
  | inl p ↦ elim (column-cases size "size_bytes") [
    | inr (e, q) ↦ absurd (ground (arith, p, q, h))
    | inl q ↦ elim (column-cases compressed "compressed_size_bytes") [
      | inr (e, r) ↦ absurd (ground (arith, p, q, r, h))
      | inl r ↦ elim (column-cases now "updated_at_ms") [
        | inr (e, u) ↦ absurd (ground (arith, p, q, r, u, h))
        | inl u ↦ elim (Bool-cases (any (has_file_id id) db.files)) [
          | inr v ↦ absurd (ground (arith, p, q, r, u, v, h))
          | inl v ↦
              elim (Option-cases (
                find (has_file_id id)
                  (update (has_file_id id) (resized size compressed now) db.files))) [
                    | inl w ↦ absurd (ground (arith, p, q, r, u, v, w, h))
                    | inr (g, w) ↦
                        let same : g ≡ f = ground (arith, p, q, r, u, v, w, h) in
                        (
                          ground (arith, p, q, r, u, v, w, same),
                          rw (← same) (find-resized id size compressed now db.files g w),
                        )
                  ]
        ]
      ]
    ]
  ]
]

-- What the checks of `store_bundles` establish.
abbrev pub IsChecked : CommitUpdateRequest → CentralDb → Type 0
IsChecked request db =
    (sum_by raw_len_of request.bundles ≡ request.new_size)
    × All
        (IsStored (
          or_insert_all [] (get_bundle_replicas_by_id (map (λ b. b.bundle_id) request.bundles) db)))
        request.bundles

replace_bundles-IsSized :
    (request : CommitUpdateRequest) (lease : LeaseRecord) (now : ℕ) (db : CentralDb) (f : FileRow)
    → (replace_bundles request lease now db).0 ≡ ok f
    → IsSized lease.file_id request.new_size f (replace_bundles request lease now db).1
unfolding replace_bundles
replace_bundles-IsSized request lease now db f h =
    let up : Fs0Result (Unit {0}) × CentralDb =
      upsert_file_bundles_by_file_id lease.file_id request.bundles db in
    let sizes : Fs0Result (ℕ × ℕ) × CentralDb = calculate_size_by_file_id lease.file_id up.1 in
    elim (Result-cases up.0) [
      | inr (e, p) ↦ absurd (ground (arith, p, h))
      | inl (u, p) ↦ elim (Result-cases sizes.0) [
        | inr (e, q) ↦ absurd (ground (arith, p, q, h))
        | inl ((raw, compressed), q) ↦ elim (Bool-cases (num_eq raw request.new_size)) [
          | inr r ↦ absurd (ground (arith, p, q, r, h))
          | inl r ↦
              let last =
                update_file_after_update lease.file_id request.new_size compressed now sizes.1 in
              let whole : replace_bundles request lease now db ≡ last = ground (arith, p, q, r) in
              rw whole (
                update_file_after_update-IsSized lease.file_id request.new_size compressed now
                  sizes.1 f (rw whole at h))
        ]
      ]
    ]

pub store_bundles-IsChecked :
    (request : CommitUpdateRequest) (lease : LeaseRecord) (now : ℕ) (db : CentralDb) (f : FileRow)
    → (store_bundles request lease now db).0 ≡ ok f
    → IsChecked request db
      × IsSized lease.file_id request.new_size f (store_bundles request lease now db).1
unfolding store_bundles
store_bundles-IsChecked request lease now db f h =
    let ready : List BundleReplicaRow =
      or_insert_all [] (get_bundle_replicas_by_id (map (λ b. b.bundle_id) request.bundles) db) in
    elim (Result-cases (submitted_size ready 0 request.bundles db).0) [
      | inr (e, p) ↦ absurd (ground (arith, p, h))
      | inl (n, p) ↦ elim (Bool-cases (num_eq n request.new_size)) [
        | inr q ↦ absurd (ground (arith, p, q, h))
        | inl q ↦
            let sum = submitted_size-sum ready 0 n request.bundles db p in
            let same = (num_eq_iff n request.new_size).0 q in
            let between : CentralDb = (submitted_size ready 0 request.bundles db).1 in
            let whole : store_bundles request lease now db
                ≡ replace_bundles request lease now between =
              ground (arith, p, q) in
            (
              (omega (arith, sum, same), submitted_size-IsStored ready 0 n request.bundles db p),
              rw whole (replace_bundles-IsSized request lease now between f (rw whole at h)),
            )
      ]
    ]
