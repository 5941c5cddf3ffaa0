-- ===== src/Central/Leases/Lifecycle.antt =====
-- An update lease from its creation to its end (db/lease.rs).
use fs.Prelude.{
  ℕ, ◌+◌, ◌<◌, ◌≤◌, ◌≡◌, refl, ◌⊎◌, inl, inr, Bool-cases, false, not, ◌||◌, none, some, List, [],
  ◌∷◌, ◌++◌, any, All, All-imp, arith,
}
use fs.Prelude.Rows.{
  find, delete, find-append_none, find-none_of_any, find-delete_other, find-delete_named,
}
use fs.Core.Constants.{i64_mod}
use fs.Core.Error.{Fs0Error, ok, err, not_found}
use fs.Core.Convert.{column-ok, column-cases}
use fs.Core.Protocol.{UpdateLease}
use fs.Central.Types.{CentralDb, LeaseRow, CreateUpdateLease}
use fs.Central.Leases.{
  is_active, is_lease_of_file, has_lease_id, has_expired, unique_failed, foreign_key_failed,
  file_exists, volume_exists, bind_lease, insert_lease, create_update_lease, find_active,
  load_active_update_lease, active_update_lease_volume, delete_expired_update_leases,
  delete_update_lease,
}

-- The leases have the ids that were given out.
unfoldable pub IsLeaseTable : CentralDb → Type 0
IsLeaseTable db = All (λ l. l.lease_id ≤ db.lease_seq) db.update_leases

row_of : ℕ → CreateUpdateLease → LeaseRow
row_of id c = record {
  lease_id = id;
  file_id = c.file_id;
  volume_id = c.volume_id;
  base_size_bytes = c.base_size_bytes;
  offset_bytes = c.offset_bytes;
  prefer_volume_name = c.prefer_volume_name;
  expires_at_ms = c.expires_at_ms;
  created_at_ms = c.created_at_ms;
}

bind_lease-cases :
    (c : CreateUpdateLease) (db : CentralDb)
    → (bind_lease c db ≡ (ok (row_of (db.lease_seq + 1) c), db))
      ⊎ ((e : Fs0Error) × (bind_lease c db ≡ (err e, db)))
unfolding bind_lease row_of
bind_lease-cases c db = grind (
  arith,
  column-cases c.file_id "file_id",
  column-cases c.volume_id "volume_id",
  column-cases c.base_size_bytes "base_size_bytes",
  column-cases c.offset_bytes "offset_bytes",
  column-cases c.expires_at_ms "expires_at_ms",
  column-cases c.created_at_ms "created_at_ms",
)

insert_lease-cases :
    (row : LeaseRow) (db : CentralDb)
    → ((insert_lease row db ≡ (
      ok tt,
      record db { update_leases = db.update_leases ++ (row ∷ []); lease_seq = row.lease_id },
    ))
        × (any (is_lease_of_file row.file_id) db.update_leases ≡ false))
      ⊎ ((e : Fs0Error) × (insert_lease row db ≡ (err e, db)))
unfolding insert_lease
insert_lease-cases row db =
    elim (Bool-cases (any (is_lease_of_file row.file_id) db.update_leases)) [
      | inl p ↦ inr (unique_failed, ground (arith, p))
      | inr p ↦
          elim (Bool-cases
            (not (file_exists row.file_id db) || not (volume_exists row.volume_id db))) [
              | inl q ↦ inr (foreign_key_failed, ground (arith, p, q))
              | inr q ↦ inl (ground (arith, p, q), p)
            ]
    ]

find-none_above :
    (id f now : ℕ) (ls : List LeaseRow)
    → All (λ l. l.lease_id < id) ls
    → find (is_active id f now) ls ≡ none
unfolding find
find-none_above id f now [] h = refl
find-none_above id f now (l ∷ ls) h = grind (arith, h.0, find-none_above id f now ls h.1)

created : CreateUpdateLease → CentralDb → CentralDb
created c db = record db {
  update_leases = db.update_leases ++ (row_of (db.lease_seq + 1) c ∷ []);
  lease_seq = db.lease_seq + 1;
}

create-ok :
    (c : CreateUpdateLease) (db : CentralDb) (lease : UpdateLease)
    → (create_update_lease c db).0 ≡ ok lease
    → ((create_update_lease c db).1 ≡ created c db)
      × (lease.lease_id ≡ db.lease_seq + 1)
      × (lease.file_id ≡ c.file_id)
      × (any (is_lease_of_file c.file_id) db.update_leases ≡ false)
unfolding create_update_lease created row_of
create-ok c db lease h = elim (bind_lease-cases c db) [
  | inr (e, p) ↦ absurd (ground (arith, p, h))
  | inl p ↦ elim (insert_lease-cases (row_of (db.lease_seq + 1) c) db) [
    | inr (e, q) ↦ absurd (ground (arith, p, q, h))
    | inl (q, r) ↦ (ground (arith, p, q), ground (arith, p, q, h), ground (arith, p, q, h), r)
  ]
]

-- The table has the lease as the one of its file.
abbrev pub IsHeld : UpdateLease → CentralDb → Type 0
IsHeld lease db =
    (row : LeaseRow) × (find (is_lease_of_file lease.file_id) db.update_leases ≡ some row)
    × (row.lease_id ≡ lease.lease_id)
    × (row.file_id ≡ lease.file_id)
    × (row.volume_id ≡ lease.volume_id)
    × (row.base_size_bytes ≡ lease.base_size)
    × (row.offset_bytes ≡ lease.offset)
    × (row.expires_at_ms ≡ lease.expires_at_ms)

found-created :
    (c : CreateUpdateLease) (db : CentralDb)
    → any (is_lease_of_file c.file_id) db.update_leases ≡ false
    → find (is_lease_of_file c.file_id) (created c db).update_leases
      ≡ some (row_of (db.lease_seq + 1) c)
unfolding created row_of find
found-created c db free = grind (
  arith,
  find-append_none (is_lease_of_file c.file_id) db.update_leases (row_of (db.lease_seq + 1) c ∷ [])
      (find-none_of_any (is_lease_of_file c.file_id) db.update_leases free),
)

given : ℕ → CreateUpdateLease → UpdateLease
given id c = record {
  lease_id = id;
  file_id = c.file_id;
  volume_id = c.volume_id;
  base_size = c.base_size_bytes;
  offset = c.offset_bytes;
  expires_at_ms = c.expires_at_ms;
  prefer_volume_name = c.prefer_volume_name;
}

create_update_lease-given :
    (c : CreateUpdateLease) (db : CentralDb) (lease : UpdateLease)
    → (create_update_lease c db).0 ≡ ok lease
    → (create_update_lease c db ≡ (ok lease, created c db))
      × (given (db.lease_seq + 1) c ≡ lease)
      × (any (is_lease_of_file c.file_id) db.update_leases ≡ false)
unfolding create_update_lease created row_of given
create_update_lease-given c db lease h = elim (bind_lease-cases c db) [
  | inr (e, p) ↦ absurd (ground (arith, p, h))
  | inl p ↦ elim (insert_lease-cases (row_of (db.lease_seq + 1) c) db) [
    | inr (e, q) ↦ absurd (ground (arith, p, q, h))
    | inl (q, r) ↦
        let same : given (db.lease_seq + 1) c ≡ lease = ground (arith, p, q, h) in
        (ground (arith, p, q, same), same, r)
  ]
]

given-IsHeld :
    (c : CreateUpdateLease) (db : CentralDb)
    → any (is_lease_of_file c.file_id) db.update_leases ≡ false
    → IsHeld (given (db.lease_seq + 1) c) (created c db)
unfolding given row_of
given-IsHeld c db free =
    (row_of (db.lease_seq + 1) c, found-created c db free, refl, refl, refl, refl, refl, refl)

-- A lease that was created is the one of its file in the table, on the volume and until the time
-- that were given.
pub create_update_lease-IsHeld :
    (c : CreateUpdateLease) (db : CentralDb) (lease : UpdateLease)
    → (create_update_lease c db).0 ≡ ok lease
    → IsHeld lease (create_update_lease c db).1
      × (lease.volume_id ≡ c.volume_id)
      × (lease.expires_at_ms ≡ c.expires_at_ms)
unfolding given
create_update_lease-IsHeld c db lease h =
    let (whole, same, free) = create_update_lease-given c db lease h in
    rw (whole, ← same) (given-IsHeld c db free, refl, refl)

module _ (c : CreateUpdateLease) (db : CentralDb) (now : ℕ) where
  find_active-created :
      IsLeaseTable db
      → now < c.expires_at_ms
      → now < i64_mod
      → c.file_id < i64_mod
      → db.lease_seq + 1 < i64_mod
      → find_active (db.lease_seq + 1) c.file_id now (created c db)
        ≡ (ok (row_of (db.lease_seq + 1) c), created c db)
  unfolding find_active created row_of IsLeaseTable find
  find_active-created t h hn hf hs =
      let old =
        find-none_above (db.lease_seq + 1) c.file_id now db.update_leases
          (All-imp _ _ db.update_leases (λ l k. omega (arith, k)) t) in
      let new =
        find-append_none (is_active (db.lease_seq + 1) c.file_id now) db.update_leases
          (row_of (db.lease_seq + 1) c ∷ []) old in
      grind (
        arith,
        new,
        h,
        column-ok (db.lease_seq + 1) "lease_id" hs,
        column-ok c.file_id "file_id" hf,
        column-ok now "now_ms" hn,
      )

find_active-deleted :
    (id f now : ℕ) (db : CentralDb)
    → id < i64_mod
    → f < i64_mod
    → now < i64_mod
    → (find_active id f now (delete_update_lease id db).1).0 ≡ err not_found
unfolding find_active delete_update_lease
find_active-deleted id f now db hi hf hn = ground (
  arith,
  column-ok id "lease_id" hi,
  column-ok f "file_id" hf,
  column-ok now "now_ms" hn,
  find-delete_named (is_active id f now) (has_lease_id id) db.update_leases
      (λ l p. ground (arith, p)),
)

loads :
    (id f now : ℕ) (db : CentralDb) (row : LeaseRow)
    → find_active id f now db ≡ (ok row, db)
    → ((load_active_update_lease id f now db).0
        ≡ ok (record {
          file_id = row.file_id;
          base_size_bytes = row.base_size_bytes;
          offset_bytes = row.offset_bytes;
        }))
      × ((active_update_lease_volume id f now db).0 ≡ ok row.volume_id)
unfolding load_active_update_lease active_update_lease_volume
loads id f now db row p = (ground (arith, p), ground (arith, p))

-- A lease that was created is the only one of its file; until it expires, it is loaded with its base
-- size and offset and leads to its volume; when it is deleted, it is not found.
pub create_update_lease-load :
    (c : CreateUpdateLease) (db : CentralDb) (lease : UpdateLease) (now : ℕ)
    → IsLeaseTable db
    → now < c.expires_at_ms
    → now < i64_mod
    → c.file_id < i64_mod
    → db.lease_seq + 1 < i64_mod
    → (create_update_lease c db).0 ≡ ok lease
    → (any (is_lease_of_file c.file_id) db.update_leases ≡ false)
      × ((load_active_update_lease lease.lease_id lease.file_id now (create_update_lease c db).1).0
          ≡ ok (record {
            file_id = c.file_id;
            base_size_bytes = c.base_size_bytes;
            offset_bytes = c.offset_bytes;
          }))
      × ((active_update_lease_volume lease.lease_id lease.file_id now
            (create_update_lease c db).1).0
          ≡ ok c.volume_id)
      × ((find_active lease.lease_id lease.file_id now
            (delete_update_lease lease.lease_id (create_update_lease c db).1).1).0
          ≡ err not_found)
unfolding row_of
create_update_lease-load c db lease now t h hn hf hs e =
    let (p, q, r, u) = create-ok c db lease e in
    let (a, b) =
      loads (db.lease_seq + 1) c.file_id now (created c db) (row_of (db.lease_seq + 1) c)
        (find_active-created c db now t h hn hf hs) in
    (
      u,
      rw (p, q, r) a,
      rw (p, q, r) b,
      rw (p, q, r) (find_active-deleted (db.lease_seq + 1) c.file_id now (created c db) hs hf hn),
    )

module _ (id f now later : ℕ) (db : CentralDb) where
  without_expired : CentralDb
  without_expired = record db { update_leases = delete (has_expired now) db.update_leases }

  deleted-cases :
      ((delete_expired_update_leases now db).1 ≡ without_expired)
      ⊎ ((delete_expired_update_leases now db).1 ≡ db)
  unfolding delete_expired_update_leases without_expired
  deleted-cases = elim (column-cases now "expires_at_ms") [
    | inl p ↦ inl (ground (arith, p))
    | inr (e, p) ↦ inr (ground (arith, p))
  ]

  find_active-without :
      now ≤ later → (find_active id f later without_expired).0 ≡ (find_active id f later db).0
  unfolding find_active without_expired
  find_active-without h =
      let e =
        find-delete_other (is_active id f later) (has_expired now) db.update_leases
          (λ l p. grind (arith, h, p)) in
      grind (
        arith,
        e,
        column-cases id "lease_id",
        column-cases f "file_id",
        column-cases later "now_ms",
      )

  -- Deleting the expired leases does not end a lease that is active at that moment or later: what a
  -- commit loads, and the volume that it is sent to, are the same.
  pub load-delete_expired :
      now ≤ later
      → ((load_active_update_lease id f later (delete_expired_update_leases now db).1).0
          ≡ (load_active_update_lease id f later db).0)
        × ((active_update_lease_volume id f later (delete_expired_update_leases now db).1).0
            ≡ (active_update_lease_volume id f later db).0)
  unfolding load_active_update_lease active_update_lease_volume
  load-delete_expired h = elim deleted-cases [
    | inr p ↦ rw p (refl, refl)
    | inl p ↦ rw p (ground (arith, find_active-without h), ground (arith, find_active-without h))
  ]
