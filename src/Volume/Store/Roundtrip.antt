-- ===== src/Volume/Store/Roundtrip.antt =====
-- A chunk that was put is read back (volume.rs).
use fs.Prelude.{
  ℕ, ◌/◌, ◌%◌, ◌≡◌, ◌⊎◌, refl, ap, ◌∙◌, inl, inr, none, some, List, [], ◌∷◌, length, arith, num_eq,
  ltb,
}
use fs.Prelude.Rows.{find, find-append_none}
use fs.Core.Hash.{HashId, blake3_hash, hash_eq_iff}
use fs.Core.Error.{Fs0Error, Fs0Result, ok, err, Result-cases}
use fs.Core.Exec.{reject-ok, ◌>>=◌}
use fs.Core.Constants.{volume_default_data_file_size}
use fs.Volume.Types.{ChunkMeta, VolumeDb}
use fs.Volume.Db.{has_chunk_id, insert_chunk, load_chunk}
use fs.Volume.Disk.{Os}
use fs.Volume.Disk.Loops.{length-bytes_at}
use fs.Volume.Store.{
  Volume, existing, reserved, reserve, insert_and_load, finish_put, put_chunk, read_chunk,
  write_compressed_bytes, on_db, is_nil,
}
use fs.Volume.Store.Placement.{
  IsSound, Same, reserve-Reserves, new_chunk, insert_chunk-Inserts, with_chunk, with_meta, moved,
}
use fs.Volume.Store.Integrity.{
  IsIntact, read_chunk-found, read_chunk-hashed, put_chunk-IsIntact, write-db,
}

-- After a put that returned `c`, the database has `c` under the id, with what the call gave.
pub record Has (id hash : HashId) (raw len : ℕ) (c : ChunkMeta) (db : VolumeDb) : Type 0 where
  pub found : find (has_chunk_id id) db.conn.chunks ≡ some c
  pub same : Same c hash raw len

find_new :
    (db : VolumeDb) (c : ChunkMeta)
    → find (has_chunk_id c.chunk_id) db.conn.chunks ≡ none
    → find (has_chunk_id c.chunk_id) (with_chunk db c).conn.chunks ≡ some c
unfolding find
find_new db c e =
    find-append_none (has_chunk_id c.chunk_id) db.conn.chunks (c ∷ []) e
    ∙ rw ((hash_eq_iff c.chunk_id c.chunk_id).1 refl)

insert_and_load-eq :
    (db db' : VolumeDb) (c : ChunkMeta)
    → insert_chunk c db ≡ (ok tt, db')
    → insert_and_load c db ≡ (load_chunk c.chunk_id db', db')
unfolding insert_and_load
insert_and_load-eq db db' c r = ground (arith, r)

insert_and_load-err :
    (db : VolumeDb) (c : ChunkMeta) (e : Fs0Error)
    → insert_chunk c db ≡ (err e, db)
    → (insert_and_load c db).0 ≡ err e
unfolding insert_and_load
insert_and_load-err db c e r = ground (arith, r)

insert_new-Has :
    (db : VolumeDb) (c d : ChunkMeta) (r : Fs0Result ChunkMeta × VolumeDb)
    → r ≡ (load_chunk c.chunk_id (with_chunk db c), with_chunk db c)
    → find (has_chunk_id c.chunk_id) db.conn.chunks ≡ none
    → r.0 ≡ ok d
    → (d ≡ c) × (find (has_chunk_id c.chunk_id) r.1.conn.chunks ≡ some d)
unfolding load_chunk
insert_new-Has db c d r e none_yet h =
    let f = find_new db c none_yet in (ground (arith, f), ground (arith, f))

insert-Has :
    (db : VolumeDb) (c d : ChunkMeta)
    → find (has_chunk_id c.chunk_id) db.conn.chunks ≡ none
    → (insert_and_load c db).0 ≡ ok d
    → (d ≡ c) × (find (has_chunk_id c.chunk_id) (insert_and_load c db).1.conn.chunks ≡ some d)
insert-Has db c d none_yet h = elim (insert_chunk-Inserts db c) [
  | inl (e, r) ↦ absurd (ground (arith, insert_and_load-err db c e r))
  | inr (inl (x, f, r)) ↦ absurd (ground (arith, f))
  | inr (inr (f, r)) ↦
      insert_new-Has db c d (insert_and_load c db) (insert_and_load-eq db (with_chunk db c) c r) f h
]

module _ (os : Os) (blake3 : List ℕ → List ℕ) where
  finish-Has :
      (v : Volume) (c d : ChunkMeta) (bs : List ℕ) (now : ℕ)
      → find (has_chunk_id c.chunk_id) v.db.conn.chunks ≡ none
      → (finish_put os bs now (reserved c) v).0 ≡ ok d
      → (d ≡ c)
        × (find (has_chunk_id c.chunk_id) (finish_put os bs now (reserved c) v).1.db.conn.chunks
            ≡ some d)
  unfolding finish_put
  finish-Has v c d bs now none_yet h =
      let w = write_compressed_bytes os c.volume_offset bs now v in
      elim (Result-cases w.0) [
        | inr (x, e) ↦ absurd (ground (arith, e))
        | inl (t, e) ↦
            rw (e, finish_put)
              (insert-Has w.1.db c d (rw (write-db os c.volume_offset bs now v) none_yet)
                (rw (e, finish_put) at h))
      ]

  place-Has :
      (id : HashId) (raw : ℕ) (bs : List ℕ) (now : ℕ) (v : Volume) (d : ChunkMeta)
      → IsSound v.db
      → ((on_db (reserve id (blake3_hash blake3 bs) raw (length bs) now) >>= finish_put os bs now)
          v).0
        ≡ ok d
      → Has id
          (blake3_hash blake3 bs)
          raw
          (length bs)
          d
          ((on_db (reserve id (blake3_hash blake3 bs) raw (length bs) now) >>= finish_put os bs now)
            v).1.db
  place-Has id raw bs now v d s =
      let hash = blake3_hash blake3 bs in
      elim (reserve-Reserves v.db id hash raw (length bs) now s) [
        | inl (e, p) ↦ rw p (λ h. absurd (cc))
        | inr (inl (c, f, same, p)) ↦ rw p (known c f same)
        | inr (inr (f, room, p)) ↦ rw p (λ h.
            let v' : Volume = record v { db = with_meta v.db (moved v.db (length bs) now) } in
            let c = new_chunk v.db id hash raw (length bs) in
            let (e, found) = finish-Has v' c d bs now f h in
            record { found = found; same = rw e (record { hash = refl; raw = refl; size = refl }) })
      ]
    where
      known :
          (c : ChunkMeta)
          → find (has_chunk_id id) v.db.conn.chunks ≡ some c
          → Same c (blake3_hash blake3 bs) raw (length bs)
          → (finish_put os bs now (existing c) v).0 ≡ ok d
          → Has id
              (blake3_hash blake3 bs)
              raw
              (length bs)
              d
              (finish_put os bs now (existing c) v).1.db
      known c f same h =
          let e : c ≡ d = unfold finish_put in cc in
          unfold finish_put in record { found = rw (← e) f; same = rw (← e) same }

  put_chunk-Has :
      (id : HashId) (raw : ℕ) (bs : List ℕ) (now : ℕ) (v : Volume) (d : ChunkMeta)
      → IsSound v.db
      → (put_chunk os blake3 id raw bs now v).0 ≡ ok d
      → Has id (blake3_hash blake3 bs) raw (length bs) d (put_chunk os blake3 id raw bs now v).1.db
  unfolding put_chunk
  put_chunk-Has id raw bs now v d s h =
      let p =
        on_db (reserve id (blake3_hash blake3 bs) raw (length bs) now) >>= finish_put os bs now in
      let e = reject-ok (num_eq raw 0) _ _ v d h in
      let f = reject-ok (is_nil bs) _ _ v d (rw e at h) in
      let g =
        reject-ok (ltb volume_default_data_file_size (length bs)) _ p v d (rw f at (rw e at h)) in
      rw (e, f, g) (place-Has id raw bs now v d s (rw g at (rw f at (rw e at h))))

  -- On an intact volume, a chunk that was put with success is in the database under its id as the
  -- metadata that the put returned, which has the lengths and the hash of the bytes given; and a
  -- later read of its id on the resulting state fails, or it returns that metadata with as many
  -- bytes, which hash as the bytes put.
  pub read_chunk-put_chunk :
      (id : HashId) (raw : ℕ) (bs : List ℕ) (now later : ℕ) (v : Volume) (c : ChunkMeta)
      → IsIntact blake3 v
      → (put_chunk os blake3 id raw bs now v).0 ≡ ok c
      → (find (has_chunk_id id) (put_chunk os blake3 id raw bs now v).1.db.conn.chunks ≡ some c)
        × Same c (blake3_hash blake3 bs) raw (length bs)
        × (((e : Fs0Error) × ((read_chunk os id later (put_chunk os blake3 id raw bs now v).1).0
                ≡ err e))
            ⊎ ((cs : List ℕ) × ((read_chunk os id later (put_chunk os blake3 id raw bs now v).1).0
                  ≡ ok (c, cs))
                × (blake3_hash blake3 cs ≡ blake3_hash blake3 bs)
                × (length cs ≡ length bs)))
  read_chunk-put_chunk id raw bs now later v c h put =
      let v' = (put_chunk os blake3 id raw bs now v).1 in
      let has = put_chunk-Has id raw bs now v c h.sound put in
      (
        has.found,
        has.same,
        elim (Result-cases (read_chunk os id later v').0) [
          | inr (e, p) ↦ inl (e, p)
          | inl ((d, cs), p) ↦
              let (found, hashed) =
                read_chunk-hashed blake3 os id later v' d cs
                  (put_chunk-IsIntact blake3 os id raw bs now v h) p in
              let filled = (read_chunk-found blake3 os id later v' d cs p).1 in
              let e : d ≡ c = cc (found, has.found) in
              inr (
                cs,
                p ∙ ap (λ (x : ChunkMeta). ok (x, cs)) e,
                cc (hashed, e, has.same.hash),
                omega (
                  arith,
                  ap length filled,
                  length-bytes_at v'.files.disk (d.volume_offset / volume_default_data_file_size)
                      (d.volume_offset % volume_default_data_file_size) d.compressed_len,
                  ap (λ (x : ChunkMeta). x.compressed_len) e,
                  has.same.size,
                ),
              )
        ],
      )
