-- ===== src/Central/FileBundles/Sizes.antt =====
-- What `calculate_size_by_file_id` adds up (db/file_bundle.rs, db/bundle_replica.rs).
use fs.Prelude.{
  ℕ, zero, suc, ◌+◌, ◌≤◌, ◌≡◌, refl, ap, ◌⊎◌, inl, inr, Bool-cases, Option-cases, Bool, true, List,
  [], ◌∷◌, ◌++◌, map, length, take, drop, All, All-append, All-imp, ltb, arith,
}
use fs.Prelude.Rows.{find, select, sum_by, find-All, find-where}
use fs.Core.Constants.{u64_mod}
use fs.Core.Error.{ok}
use fs.Core.Hash.{HashId}
use fs.Core.Convert.{column-cases}
use fs.Central.Types.{CentralDb, FileBundleRow, BundleReplicaRow}
use fs.Central.Replicas.{
  insert_sorted, order_replicas, query_batch, query_batches, get_bundle_replicas_by_id,
  bundle_id_query_batch_size,
}
use fs.Central.FileBundles.{
  has_bundle, or_insert_all, add_sizes, calculate_size_by_file_id, get_file_bundles_by_file_id,
}

-- Being a row of a table.
abbrev pub IsIn : BundleReplicaRow → List BundleReplicaRow → Type 0
IsIn a [] = ⊥
IsIn a (x ∷ xs) = (x ≡ a) ⊎ IsIn a xs

pub All-IsIn : (xs : List BundleReplicaRow) → All (λ a. IsIn a xs) xs
All-IsIn [] = tt
All-IsIn (x ∷ xs) =
    (inl refl, All-imp (λ a. IsIn a xs) (λ a. IsIn a (x ∷ xs)) xs (λ a h. inr h) (All-IsIn xs))

-- A replica was chosen for each bundle of the file, a row of the table for the bundle's id.
abbrev pub Chosen : List BundleReplicaRow → List FileBundleRow → List BundleReplicaRow → Type 0
Chosen table [] [] = Unit
Chosen table [] (r ∷ rs) = ⊥
Chosen table (b ∷ bs) [] = ⊥
Chosen table (b ∷ bs) (r ∷ rs) =
    (has_bundle b.bundle_id r ≡ true) × IsIn r table × Chosen table bs rs

module _ {κ} (P : BundleReplicaRow → Type κ) where
  select-All :
      (p : BundleReplicaRow → Bool) (rs : List BundleReplicaRow) → All P rs → All P (select p rs)
  unfolding select
  select-All p [] h = tt
  select-All p (r ∷ rs) h = ground (arith, select-All p rs h.1)

  insert_sorted-All :
      (r : BundleReplicaRow) (rs : List BundleReplicaRow)
      → P r
      → All P rs
      → All P (insert_sorted r rs)
  unfolding insert_sorted
  insert_sorted-All r [] h k = (h, tt)
  insert_sorted-All r (x ∷ xs) h k = ground (arith, insert_sorted-All r xs h k.1)

  order_replicas-All : (rs : List BundleReplicaRow) → All P rs → All P (order_replicas rs)
  unfolding order_replicas
  order_replicas-All [] h = tt
  order_replicas-All (r ∷ rs) h =
      insert_sorted-All r (order_replicas rs) h.0 (order_replicas-All rs h.1)

  pub query_batches-All :
      (fuel : ℕ) (ids : List HashId) (db : CentralDb)
      → All P db.bundle_replicas
      → All P (query_batches fuel ids db)
  unfolding query_batches query_batch
  query_batches-All fuel [] db h = tt
  query_batches-All zero (id ∷ ids) db h = tt
  query_batches-All (suc fuel) (id ∷ ids) db h =
      All-append P (query_batch (take bundle_id_query_batch_size (id ∷ ids)) db) _
        (order_replicas-All _ (select-All _ db.bundle_replicas h))
        (query_batches-All fuel (drop bundle_id_query_batch_size (id ∷ ids)) db h)

  or_insert_all-All :
      (ready rs : List BundleReplicaRow) → All P ready → All P rs → All P (or_insert_all ready rs)
  unfolding or_insert_all
  or_insert_all-All ready [] h k = h
  or_insert_all-All ready (r ∷ rs) h k = ground (
    arith,
    or_insert_all-All ready rs h k.1,
    or_insert_all-All (ready ++ (r ∷ [])) rs (All-append P ready (r ∷ []) h (k.0, tt)) k.1,
  )

abbrev pub raw_len_of : BundleReplicaRow → ℕ
raw_len_of r = r.raw_len

abbrev pub compressed_len_of : BundleReplicaRow → ℕ
compressed_len_of r = r.compressed_len

add_sizes_sound :
    (table ready : List BundleReplicaRow) (raw comp : ℕ) (bs : List FileBundleRow) (db : CentralDb)
    (r c : ℕ)
    → All (λ x. IsIn x table) ready
    → (add_sizes ready raw comp bs db).0 ≡ ok (r, c)
    → (chosen : List BundleReplicaRow) × Chosen table bs chosen
      × (r ≡ raw + sum_by raw_len_of chosen)
      × (c ≡ comp + sum_by compressed_len_of chosen)
unfolding add_sizes sum_by
add_sizes_sound table ready raw comp [] db r c h e = ([], tt, ground (arith, e), ground (arith, e))
add_sizes_sound table ready raw comp (b ∷ bs) db r c h e =
    elim (Option-cases (find (has_bundle b.bundle_id) ready)) [
      | inl p ↦ absurd (ground (arith, p, e))
      | inr (x, p) ↦ elim (Bool-cases (ltb (raw + x.raw_len) u64_mod)) [
        | inr q ↦ absurd (ground (arith, p, q, e))
        | inl q ↦ elim (Bool-cases (ltb (comp + x.compressed_len) u64_mod)) [
          | inr q' ↦ absurd (ground (arith, p, q, q', e))
          | inl q' ↦
              let (chosen, c0, c1, c2) =
                add_sizes_sound table ready (raw + x.raw_len) (comp + x.compressed_len) bs db r c h
                  (ground (arith, p, q, q', e)) in
              (
                x ∷ chosen,
                (
                  find-where (has_bundle b.bundle_id) ready x p,
                  find-All (λ y. IsIn y table) (has_bundle b.bundle_id) ready x p h,
                  c0,
                ),
                omega (arith, c1),
                omega (arith, c2),
              )
        ]
      ]
    ]

pub get_file_bundles_state : (f : ℕ) (db : CentralDb) → (get_file_bundles_by_file_id f db).1 ≡ db
unfolding get_file_bundles_by_file_id
get_file_bundles_state f db = elim (column-cases f "file_id") [
  | inl p ↦ ground (arith, p)
  | inr (x, p) ↦ ground (arith, p)
]

-- When the size of a file is computed, it is the sum of the lengths of stored replicas, one for each
-- of the file's bundles in their order, raw and compressed.
pub calculate_size_sound :
    (f : ℕ) (db : CentralDb) (raw comp : ℕ) (bs : List FileBundleRow)
    → (get_file_bundles_by_file_id f db).0 ≡ ok bs
    → (calculate_size_by_file_id f db).0 ≡ ok (raw, comp)
    → (chosen : List BundleReplicaRow) × Chosen db.bundle_replicas bs chosen
      × (raw ≡ sum_by raw_len_of chosen)
      × (comp ≡ sum_by compressed_len_of chosen)
unfolding calculate_size_by_file_id get_bundle_replicas_by_id
calculate_size_sound f db raw comp bs g e =
    let ready =
      or_insert_all []
        (query_batches (length (map (λ b. b.bundle_id) bs)) (map (λ b. b.bundle_id) bs) db) in
    let from_table =
      or_insert_all-All (λ x. IsIn x db.bundle_replicas) [] _ tt
        (query_batches-All (λ x. IsIn x db.bundle_replicas) (length (map (λ b. b.bundle_id) bs))
          (map (λ b. b.bundle_id) bs) db (All-IsIn db.bundle_replicas)) in
    let (chosen, c, r, k) =
      add_sizes_sound db.bundle_replicas ready 0 0 bs db raw comp from_table
        (ground (arith, g, e, get_file_bundles_state f db)) in
    (chosen, c, omega (arith, r), omega (arith, k))

length-drop : (n : ℕ) (ids : List HashId) → length (drop n ids) ≤ length ids
length-drop zero ids = omega arith
length-drop (suc n) [] = omega arith
length-drop (suc n) (x ∷ xs) = omega (arith, length-drop n xs)

fuel-enough :
    (m n : ℕ) (ids : List HashId) (db : CentralDb)
    → length ids ≤ m
    → length ids ≤ n
    → query_batches m ids db ≡ query_batches n ids db
unfolding query_batches
fuel-enough m n [] db h k = refl
fuel-enough zero n (id ∷ ids) db h k = absurd (omega (arith, h))
fuel-enough (suc m) zero (id ∷ ids) db h k = absurd (omega (arith, k))
fuel-enough (suc m) (suc n) (id ∷ ids) db h k =
    ap (λ rest. query_batch (take bundle_id_query_batch_size (id ∷ ids)) db ++ rest)
      (fuel-enough m n (drop bundle_id_query_batch_size (id ∷ ids)) db
        (omega (arith, h, length-drop 499 ids)) (omega (arith, k, length-drop 499 ids)))

-- The fuel for the batches is enough: with any more of it, the same rows are read.
pub query_batches-fuel :
    (fuel : ℕ) (ids : List HashId) (db : CentralDb)
    → length ids ≤ fuel
    → query_batches fuel ids db ≡ get_bundle_replicas_by_id ids db
unfolding get_bundle_replicas_by_id
query_batches-fuel fuel ids db h = fuel-enough fuel (length ids) ids db h (omega arith)
