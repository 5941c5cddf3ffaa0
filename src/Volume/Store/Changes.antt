-- ===== src/Volume/Store/Changes.antt =====
-- The change records of a volume's bundles (db.rs), which the storage node reports to central.
use fs.Prelude.{
  ℕ, suc, ◌<◌, ◌≤◌, ◌≡◌, refl, Bool-cases, true, false, some, inl, inr, List, [], ◌∷◌, ◌++◌, any,
  arith, leb, All,
}
use fs.Prelude.Rows.{find, select, delete, update, select-delete}
use fs.Core.Hash.{HashId, hash_eq_iff}
use fs.Core.Error.{err, bundle_not_found}
use fs.Core.Convert.{column-ok}
use fs.Core.Constants.{i64_mod}
use fs.Core.Protocol.{BundleReplicaEventKind, deleted}
use fs.Volume.Types.{ChangeRecordRow, Tables, VolumeDb}
use fs.Volume.Db.{
  has_bundle_id, load_bundle, join_chunks, is_record_of, insert_bundle_change_record_tx,
  delete_bundle, remove_bundle_change_records,
}

find-update :
    (id : HashId) (k : BundleReplicaEventKind) (rs : List ChangeRecordRow)
    → any (is_record_of id) rs ≡ true
    → (r : ChangeRecordRow) × (find
          (is_record_of id)
          (update (is_record_of id) (λ r. record r { kind = k }) rs)
        ≡ some r)
      × (r.kind ≡ k)
unfolding find update
find-update id k [] h = cc
find-update id k (r ∷ rs) h = elim (Bool-cases (is_record_of id r)) [
  | inl e ↦ (record r { kind = k }, ground (arith, e), refl)
  | inr e ↦ let (s, f, g) = find-update id k rs (ground arith) in (s, ground (arith, e, f), g)
]

find-new :
    (id : HashId) (r : ChangeRecordRow) (rs : List ChangeRecordRow)
    → any (is_record_of id) rs ≡ false
    → is_record_of id r ≡ true
    → find (is_record_of id) (rs ++ r ∷ []) ≡ some r
unfolding find
find-new id r [] h e = ground arith
find-new id r (s ∷ rs) h e = ground (arith, find-new id r rs)

-- A change of a bundle leaves a record of that bundle with the kind of the change, whether there was
-- a record of it before or not.
pub find-insert_change_record :
    (id : HashId) (k : BundleReplicaEventKind) (conn : Tables)
    → (r : ChangeRecordRow) × (find
          (is_record_of id)
          (insert_bundle_change_record_tx id k conn).1.bundle_change_records
        ≡ some r)
      × (r.kind ≡ k)
unfolding insert_bundle_change_record_tx
find-insert_change_record id k conn =
    elim (Bool-cases (any (is_record_of id) conn.bundle_change_records)) [
      | inl e ↦
          let (r, f, g) = find-update id k conn.bundle_change_records e in
          (r, ground (arith, e, f), g)
      | inr e ↦
          let r : ChangeRecordRow = record {
            event_id = suc conn.last_event_id;
            kind = k;
            bundle_id = id;
          } in
          (
            r,
            ground
                (arith, e, find-new id r conn.bundle_change_records e ((hash_eq_iff id id).1 refl)),
            refl,
          )
    ]

-- Records with ids up to `max` are removed, whatever an update made of their kinds.
delete_every :
    (id : HashId) (k : BundleReplicaEventKind) (max : ℕ) (rs : List ChangeRecordRow)
    → All (λ r. r.event_id ≤ max) rs
    → delete (λ r. leb r.event_id max) (update (is_record_of id) (λ r. record r { kind = k }) rs)
      ≡ []
unfolding delete update
delete_every id k max [] h = refl
delete_every id k max (r ∷ rs) h = ground (arith, delete_every id k max rs)

no_rows_left :
    (id : HashId) (conn : Tables)
    → join_chunks conn.chunks
        (select (has_bundle_id id) (delete (has_bundle_id id) conn.bundle_chunks))
      ≡ []
unfolding join_chunks
no_rows_left id conn = ground (arith, select-delete (has_bundle_id id) conn.bundle_chunks)

-- If a bundle has a pending change record, all pending records are among those that a reporter has
-- read (their ids are at most `max`), and the bundle is deleted before the reporter removes the
-- records that it read, then the bundle is gone and no record of its deletion is left to report.
pub delete_bundle_unreported :
    (id : HashId) (max : ℕ) (db : VolumeDb)
    → any (is_record_of id) db.conn.bundle_change_records ≡ true
    → All (λ r. r.event_id ≤ max) db.conn.bundle_change_records
    → max < i64_mod
    → let after = (remove_bundle_change_records max (delete_bundle id db).1).1 in
      (load_bundle id after ≡ err (bundle_not_found id)) × (after.conn.bundle_change_records ≡ [])
unfolding remove_bundle_change_records delete_bundle load_bundle
delete_bundle_unreported id max db p h m = (
  ground (arith, p, column-ok max "max_event_id" m, no_rows_left id db.conn),
  ground (
    arith,
    p,
    column-ok max "max_event_id" m,
    delete_every id deleted max db.conn.bundle_change_records h,
  ),
)
