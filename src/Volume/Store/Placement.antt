-- ===== src/Volume/Store/Placement.antt =====
-- Where `put_chunk` places chunks (volume.rs): the invariant of the allocation, and what the first
-- critical section does to it.
use fs.Prelude.{
  ℕ, ◌+◌, ◌%◌, ◌≤◌, ◌<◌, ◌≡◌, refl, ◌⊎◌, inl, inr, max, Bool, Bool-cases, false, not, ◌||◌, num_eq,
  none, some, ltb, [], ◌∷◌, ◌++◌, arith, All, All-append, All-imp, Option-cases,
}
use fs.Prelude.Rows.{find, delete-All}
use fs.Core.Hash.{HashId, hash_eq, hash_eq_iff}
use fs.Core.Error.{Fs0Error, Fs0Result, ok, err, capacity_exceeded, hash_mismatch}
use fs.Core.Convert.{column-ok, column-cases}
use fs.Core.Constants.{volume_default_data_file_size, i64_mod, u64_mod}
use fs.Volume.Types.{VolumeMeta, ChunkMeta, VolumeDb}
use fs.Volume.Db.{has_chunk_id, reserve_active_volume_offset, insert_chunk, delete_chunk}
use fs.Volume.Store.{Reservation, existing, reserved, place, reserve, reserve_new, offset_overflow}

-- A chunk lies below the active offset, has bytes, and does not cross the end of its data file.
pub record Placed (active : ℕ) (c : ChunkMeta) : Type 0 where
  pub filled : 0 < c.compressed_len
  pub below : c.volume_offset + c.compressed_len ≤ active
  pub in_file :
      c.volume_offset % volume_default_data_file_size + c.compressed_len
      ≤ volume_default_data_file_size

pub record IsSound (db : VolumeDb) : Type 0 where
  pub loaded : db.conn.volume_meta ≡ some db.meta
  pub bounded : db.meta.active_volume_offset ≤ db.meta.max_bytes
  pub fits : db.meta.max_bytes < i64_mod
  pub placed : All (Placed db.meta.active_volume_offset) db.conn.chunks

-- The place is at or above the active offset, and a chunk there stays in one data file.
pub place_bounds :
    (active len : ℕ)
    → len ≤ volume_default_data_file_size
    → (active ≤ place active len)
      × (place active len % volume_default_data_file_size + len ≤ volume_default_data_file_size)
unfolding place
place_bounds active len h = ground arith

abbrev pub new_chunk : VolumeDb → HashId → HashId → ℕ → ℕ → ChunkMeta
new_chunk db chunk_id compressed_hash raw_len len = record {
  chunk_id = chunk_id;
  compressed_hash = compressed_hash;
  volume_offset = place db.meta.active_volume_offset len;
  raw_len = raw_len;
  compressed_len = len;
}

abbrev pub raised : VolumeDb → ℕ → ℕ → VolumeMeta
raised db next now = record (db.meta) {
  active_volume_offset = max db.meta.active_volume_offset next;
  updated_at_ms = now;
}

abbrev pub moved : VolumeDb → ℕ → ℕ → VolumeMeta
moved db len now = raised db (place db.meta.active_volume_offset len + len) now

abbrev pub with_meta : VolumeDb → VolumeMeta → VolumeDb
with_meta db m = record { conn = record (db.conn) { volume_meta = some m }; meta = m }

-- A stored chunk that the call describes too.
pub record Same (c : ChunkMeta) (compressed_hash : HashId) (raw_len len : ℕ) : Type 0 where
  pub hash : c.compressed_hash ≡ compressed_hash
  pub raw : c.raw_len ≡ raw_len
  pub size : c.compressed_len ≡ len

-- What the first critical section can do.
abbrev pub Reserves :
    VolumeDb → HashId → HashId → ℕ → ℕ → ℕ → Fs0Result Reservation × VolumeDb → Type 0
Reserves db chunk_id compressed_hash raw_len len now r =
    ((e : Fs0Error) × (r ≡ (err e, db)))
    ⊎ (((c : ChunkMeta) × (find (has_chunk_id chunk_id) db.conn.chunks ≡ some c)
          × Same c compressed_hash raw_len len
          × (r ≡ (ok (existing c), db)))
        ⊎ ((find (has_chunk_id chunk_id) db.conn.chunks ≡ none)
            × (place db.meta.active_volume_offset len + len ≤ db.meta.max_bytes)
            × (r ≡ (
              ok (reserved (new_chunk db chunk_id compressed_hash raw_len len)),
              with_meta db (moved db len now),
            ))))

-- The UPDATE and the reload of `reserve_active_volume_offset`, when the meta row is there.
reserve_active-cases :
    (db : VolumeDb) (next now : ℕ)
    → db.conn.volume_meta ≡ some db.meta
    → next < i64_mod
    → ((e : Fs0Error) × (reserve_active_volume_offset next now db ≡ (err e, db)))
      ⊎ (reserve_active_volume_offset next now db
          ≡ (ok (raised db next now), with_meta db (raised db next now)))
unfolding reserve_active_volume_offset
reserve_active-cases db next now loaded fits = elim (column-cases now "updated_at_ms") [
  | inl e ↦ inr (ground (arith, e, column-ok next "active volume offset" fits))
  | inr (e, p) ↦ inl (e, ground (arith, p, column-ok next "active volume offset" fits))
]

reserve_new-Reserves :
    (db : VolumeDb) (id hash : HashId) (raw len now : ℕ)
    → IsSound db
    → find (has_chunk_id id) db.conn.chunks ≡ none
    → Reserves db id hash raw len now (reserve_new id hash raw len now db)
unfolding reserve_new
reserve_new-Reserves db id hash raw len now s e =
    let next : ℕ = place db.meta.active_volume_offset len + len in
    elim (Bool-cases (ltb next u64_mod)) [
      | inr big ↦ inl (offset_overflow, ground arith)
      | inl small ↦ elim (Bool-cases (ltb db.meta.max_bytes next)) [
        | inl full ↦ inl (capacity_exceeded next db.meta.max_bytes, ground arith)
        | inr room ↦ elim (reserve_active-cases db next now s.loaded (ground arith)) [
          | inl (x, p) ↦ inl (x, ground (arith, p))
          | inr p ↦ inr (inr (e, ground arith, ground (arith, p)))
        ]
      ]
    ]

reserve-none :
    (db : VolumeDb) (id hash : HashId) (raw len now : ℕ)
    → find (has_chunk_id id) db.conn.chunks ≡ none
    → reserve id hash raw len now db ≡ reserve_new id hash raw len now db
unfolding reserve
reserve-none db id hash raw len now e = rw (e, reserve)

reserve-some :
    (db : VolumeDb) (id hash : HashId) (raw len now : ℕ) (c : ChunkMeta)
    → find (has_chunk_id id) db.conn.chunks ≡ some c
    → ((e : Fs0Error) × (reserve id hash raw len now db ≡ (err e, db)))
      ⊎ (Same c hash raw len × (reserve id hash raw len now db ≡ (ok (existing c), db)))
unfolding reserve
reserve-some db id hash raw len now c e = elim (Bool-cases (differs c)) [
  | inl t ↦ inl (hash_mismatch c.volume_offset, rw (e, reserve) (rw t))
  | inr f ↦ inr (same f, rw (e, reserve) (rw f))
]
  where
    differs : ChunkMeta → Bool
    differs c =
        not (num_eq c.raw_len raw)
        || not (num_eq c.compressed_len len)
        || not (hash_eq c.compressed_hash hash)

    same : differs c ≡ false → Same c hash raw len
    same f = record {
      hash = (hash_eq_iff c.compressed_hash hash).0 (ground arith);
      raw = ground arith;
      size = ground arith;
    }

pub reserve-Reserves :
    (db : VolumeDb) (id hash : HashId) (raw len now : ℕ)
    → IsSound db
    → Reserves db id hash raw len now (reserve id hash raw len now db)
reserve-Reserves db id hash raw len now s =
    elim (Option-cases (find (has_chunk_id id) db.conn.chunks)) [
      | inl e ↦
          rw (reserve-none db id hash raw len now e)
            (reserve_new-Reserves db id hash raw len now s e)
      | inr (c, e) ↦ elim (reserve-some db id hash raw len now c e) [
        | inl refused ↦ inl refused
        | inr (same, known) ↦ inr (inl (c, e, same, known))
      ]
    ]

Placed-mono : (a b : ℕ) (c : ChunkMeta) → a ≤ b → Placed a c → Placed b c
Placed-mono a b c h p = record { filled = p.filled; below = omega arith; in_file = p.in_file }

pub raised-IsSound :
    (db : VolumeDb) (next now : ℕ)
    → IsSound db
    → next ≤ db.meta.max_bytes
    → IsSound (with_meta db (raised db next now))
raised-IsSound db next now s h = record {
  loaded = refl;
  bounded = omega (arith, s.bounded);
  fits = s.fits;
  placed =
      All-imp (Placed db.meta.active_volume_offset)
        (Placed (raised db next now).active_volume_offset) db.conn.chunks
        (λ c p. Placed-mono _ _ c (omega arith) p) s.placed;
}

-- The new chunk under the new meta row.
pub new_chunk-Placed :
    (db : VolumeDb) (id hash : HashId) (raw len now : ℕ)
    → 0 < len
    → len ≤ volume_default_data_file_size
    → Placed (moved db len now).active_volume_offset (new_chunk db id hash raw len)
new_chunk-Placed db id hash raw len now filled fits = record {
  filled = filled;
  below = omega arith;
  in_file = (place_bounds db.meta.active_volume_offset len fits).1;
}

-- Whatever the first critical section does, the allocation stays sound.
pub reserve-IsSound :
    (db : VolumeDb) (id hash : HashId) (raw len now : ℕ)
    → IsSound db
    → IsSound (reserve id hash raw len now db).1
reserve-IsSound db id hash raw len now s = elim (reserve-Reserves db id hash raw len now s) [
  | inl (e, p) ↦ rw p s
  | inr (inl (c, f, same, p)) ↦ rw p s
  | inr (inr (f, room, p)) ↦ rw p (raised-IsSound db _ now s room)
]

-- A place that the first critical section hands out, on a sound allocation, is for an id that is not
-- stored, behind every stored chunk, within the capacity and within one data file; the meta row
-- that it leaves covers it, and the allocation stays sound.
pub reserve-Placed :
    (db : VolumeDb) (id hash : HashId) (raw len now : ℕ) (c : ChunkMeta)
    → IsSound db
    → 0 < len
    → len ≤ volume_default_data_file_size
    → (reserve id hash raw len now db).0 ≡ ok (reserved c)
    → (find (has_chunk_id id) db.conn.chunks ≡ none)
      × (c ≡ new_chunk db id hash raw len)
      × All (λ d. d.volume_offset + d.compressed_len ≤ c.volume_offset) db.conn.chunks
      × (c.volume_offset + len ≤ db.meta.max_bytes)
      × Placed (reserve id hash raw len now db).1.meta.active_volume_offset c
      × IsSound (reserve id hash raw len now db).1
reserve-Placed db id hash raw len now c s filled small h =
    let sound = reserve-IsSound db id hash raw len now s in
    elim (reserve-Reserves db id hash raw len now s) [
      | inl (e, p) ↦ absurd (ground (arith, p, h))
      | inr (inl (d, f, same, p)) ↦ absurd (ground (arith, p, h))
      | inr (inr (f, room, p)) ↦
          let n : ChunkMeta = new_chunk db id hash raw len in
          let e : n ≡ c = ground (arith, p, h) in
          let at = place_bounds db.meta.active_volume_offset len small in
          let behind : All (λ d. d.volume_offset + d.compressed_len ≤ n.volume_offset)
              db.conn.chunks =
            All-imp (Placed db.meta.active_volume_offset)
              (λ d. d.volume_offset + d.compressed_len ≤ n.volume_offset) db.conn.chunks
              (λ d q. omega (arith, q.below, at.0)) s.placed in
          let placed : Placed (reserve id hash raw len now db).1.meta.active_volume_offset n =
            rw p (new_chunk-Placed db id hash raw len now filled small) in
          rw (← e) (f, refl, behind, room, placed, sound)
    ]

abbrev pub with_chunk : VolumeDb → ChunkMeta → VolumeDb
with_chunk db c = record db { conn = record (db.conn) { chunks = db.conn.chunks ++ c ∷ [] } }

-- What the INSERT of a chunk can do.
abbrev pub Inserts : VolumeDb → ChunkMeta → Fs0Result (Unit {0}) × VolumeDb → Type 0
Inserts db c r =
    ((e : Fs0Error) × (r ≡ (err e, db)))
    ⊎ (((d : ChunkMeta) × (find (has_chunk_id c.chunk_id) db.conn.chunks ≡ some d)
          × (r ≡ (ok tt, db)))
        ⊎ ((find (has_chunk_id c.chunk_id) db.conn.chunks ≡ none) × (r ≡ (ok tt, with_chunk db c))))

pub insert_chunk-Inserts : (db : VolumeDb) (c : ChunkMeta) → Inserts db c (insert_chunk c db)
unfolding insert_chunk
insert_chunk-Inserts db c = elim (column-cases c.volume_offset "volume offset") [
  | inr (e, p) ↦ inl (e, ground (arith, p))
  | inl p ↦ elim (column-cases c.raw_len "raw len") [
    | inr (e, q) ↦ inl (e, ground (arith, p, q))
    | inl q ↦ elim (column-cases c.compressed_len "compressed len") [
      | inr (e, r) ↦ inl (e, ground (arith, p, q, r))
      | inl r ↦ elim (Option-cases (find (has_chunk_id c.chunk_id) db.conn.chunks)) [
        | inr (d, f) ↦ inr (inl (d, f, ground (arith, p, q, r, f)))
        | inl f ↦ inr (inr (f, ground (arith, p, q, r, f)))
      ]
    ]
  ]
]

pub insert_chunk-IsSound :
    (db : VolumeDb) (c : ChunkMeta)
    → IsSound db
    → Placed db.meta.active_volume_offset c
    → IsSound (insert_chunk c db).1
insert_chunk-IsSound db c s p = elim (insert_chunk-Inserts db c) [
  | inl (e, r) ↦ rw r s
  | inr (inl (d, f, r)) ↦ rw r s
  | inr (inr (f, r)) ↦ rw r (record {
    loaded = s.loaded;
    bounded = s.bounded;
    fits = s.fits;
    placed =
        All-append (Placed db.meta.active_volume_offset) db.conn.chunks (c ∷ []) s.placed (p, tt);
  })
]

-- Deleting a chunk keeps the allocation sound: its bytes are not used again.
pub delete_chunk-IsSound :
    (db : VolumeDb) (id : HashId) → IsSound db → IsSound (delete_chunk id db).1
unfolding delete_chunk
delete_chunk-IsSound db id s = ground (
  arith,
  delete-All (Placed db.meta.active_volume_offset) (has_chunk_id id) db.conn.chunks s.placed,
)
