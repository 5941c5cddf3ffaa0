-- ===== src/Volume/Store/Integrity.antt =====
-- The bytes of the chunks (volume.rs with data_file_cache.rs): what is stored stays intact, whatever
-- is written later, and is what a read returns.
use fs.Prelude.{
  ℕ, ◌+◌, ◌*◌, ◌/◌, ◌%◌, ◌≤◌, ◌<◌, ◌≡◌, refl, sym, ap, ◌∙◌, ◌⊎◌, inl, inr, Bool, Bool-cases,
  Option-cases, true, false, some, ltb, ltb-false→le, num_eq, List, [], ◌∷◌, arith, All, All-append,
  All-imp_both, length,
}
use fs.Prelude.Rows.{find, find-All}
use fs.Core.Hash.{HashId, blake3_hash}
use fs.Core.Error.{Fs0Error, Fs0Result, ok, err, Result-cases}
use fs.Core.Constants.{volume_default_data_file_size}
use fs.Core.Exec.{reject-keeps, ◌>>=◌}
use fs.Volume.Types.{ChunkMeta, VolumeDb}
use fs.Volume.Db.{has_chunk_id, insert_chunk}
use fs.Volume.Disk.{Disk, Os, Outside, bytes_at, write_at, read_at}
use fs.Volume.Disk.Loops.{bytes_at-same, write_at-frame, write_at-ok, read_at-ok}
use fs.Volume.DataFiles.{DataFiles, get_or_open, write_file, read_file}
use fs.Volume.Store.{
  Volume, reserved, reserve, insert_and_load, finish_put, put_chunk, read_chunk,
  write_compressed_bytes, read_compressed_bytes, on_db, is_nil,
}
use fs.Volume.Store.Placement.{
  Placed, IsSound, reserve-Reserves, raised-IsSound, new_chunk, new_chunk-Placed, place_bounds,
  insert_chunk-Inserts, insert_chunk-IsSound,
}

-- The bytes of a chunk's range.
abbrev pub chunk_bytes : Disk → ChunkMeta → List ℕ
chunk_bytes d c =
    bytes_at d (c.volume_offset / volume_default_data_file_size)
      (c.volume_offset % volume_default_data_file_size) c.compressed_len

-- Positions of the volume, across its data files, at or above an offset.
abbrev pub Above : ℕ → ℕ → ℕ → Type 0
Above offset j p =
    (p < volume_default_data_file_size) × (offset ≤ j * volume_default_data_file_size + p)

-- Two disks that agree below an offset of the volume.
abbrev pub AgreeBelow : ℕ → Disk → Disk → Type 0
AgreeBelow offset a b =
    (j p : ℕ)
    → p < volume_default_data_file_size
    → j * volume_default_data_file_size + p < offset
    → a j p ≡ b j p

-- Chunks below the offset have the same bytes on both.
pub chunk_bytes-same :
    (a b : Disk) (active : ℕ) (c : ChunkMeta)
    → AgreeBelow active a b
    → Placed active c
    → chunk_bytes a c ≡ chunk_bytes b c
chunk_bytes-same a b active c agree p = bytes_at-same a b _ _ c.compressed_len (λ q lo hi.
    agree (c.volume_offset / volume_default_data_file_size) q (omega (arith, p.in_file))
      (omega (arith, p.below)))

module _ (os : Os) where
  -- Opening and touching a slot leave the bytes alone.
  get_or_open-frame :
      (i : ℕ) (create : Bool) (f : DataFiles) (j p : ℕ)
      → (get_or_open os i create f).1.disk j p ≡ f.disk j p
  unfolding get_or_open
  get_or_open-frame i create f j p = ground (arith, os.open_frame i create f.disk j p)

  -- After the open, the bytes are those of the write, and success is a write that succeeded.
  abbrev Writes : ℕ → ℕ → List ℕ → Disk → Fs0Result (Unit {0}) × DataFiles → Type 0
  Writes i o bs d r =
      ((e : Fs0Error) × (r.0 ≡ err e) × (r.1.disk ≡ d))
      ⊎ ((((e : Fs0Error) × (r.0 ≡ err e)) ⊎ ((write_at os i o bs d).0 ≡ ok tt))
          × (r.1.disk ≡ (write_at os i o bs d).1))

  write_file-Writes :
      (i o : ℕ) (bs : List ℕ) (now : ℕ) (f : DataFiles)
      → Writes i o bs (get_or_open os i true f).1.disk (write_file os i o bs now f)
  unfolding write_file
  write_file-Writes i o bs now f = elim (Result-cases (get_or_open os i true f).0) [
    | inl (t, e) ↦
        let d : Disk = (get_or_open os i true f).1.disk in
        elim (Result-cases (write_at os i o bs d).0) [
          | inr (x, q) ↦ inr (inl (x, ground (arith, e, q)), ground (arith, e, q))
          | inl (u, q) ↦ inr (inr q, ground (arith, e, q))
        ]
    | inr (x, e) ↦ inl (x, ground (arith, e), ground (arith, e))
  ]

  abbrev Reads : ℕ → ℕ → ℕ → Disk → Fs0Result (List ℕ) × DataFiles → Type 0
  Reads i o n d r = ((e : Fs0Error) × (r.0 ≡ err e)) ⊎ (r.0 ≡ read_at os i o n d)

  read_file-Reads :
      (i o n now : ℕ) (f : DataFiles)
      → Reads i o n (get_or_open os i false f).1.disk (read_file os i o n now f)
  unfolding read_file
  read_file-Reads i o n now f = elim (Result-cases (get_or_open os i false f).0) [
    | inl (t, e) ↦ inr (ground (arith, e))
    | inr (x, e) ↦ inl (x, ground (arith, e))
  ]

  pub write_file-frame :
      (i o : ℕ) (bs : List ℕ) (now : ℕ) (f : DataFiles) (j p : ℕ)
      → Outside i o (length bs) j p
      → (write_file os i o bs now f).1.disk j p ≡ f.disk j p
  write_file-frame i o bs now f j p h =
      let g = (get_or_open os i true f).1.disk in
      elim (write_file-Writes i o bs now f) [
        | inl (e, q, same) ↦ rw same (get_or_open-frame i true f j p)
        | inr (q, same) ↦
            rw same (write_at-frame os i o bs g j p h ∙ get_or_open-frame i true f j p)
      ]

  pub write_file-ok :
      (i o : ℕ) (bs : List ℕ) (now : ℕ) (f : DataFiles)
      → (write_file os i o bs now f).0 ≡ ok tt
      → bytes_at (write_file os i o bs now f).1.disk i o (length bs) ≡ bs
  write_file-ok i o bs now f h = elim (write_file-Writes i o bs now f) [
    | inl (e, q, same) ↦ cc
    | inr (inl (e, q), same) ↦ absurd (ground (arith, q, h))
    | inr (inr q, same) ↦ rw same (write_at-ok os i o bs _ q)
  ]

  pub read_file-ok :
      (i o n now : ℕ) (f : DataFiles) (bs : List ℕ)
      → (read_file os i o n now f).0 ≡ ok bs
      → bs ≡ bytes_at f.disk i o n
  read_file-ok i o n now f bs h = elim (read_file-Reads i o n now f) [
    | inl (e, q) ↦ cc
    | inr q ↦
        read_at-ok os i o n _ bs (sym q ∙ h)
        ∙ bytes_at-same _ f.disk i o n (λ p lo hi. get_or_open-frame i false f i p)
  ]

  -- A write at an offset of the volume changes nothing below it.
  write-AgreeBelow :
      (offset : ℕ) (bs : List ℕ) (now : ℕ) (v : Volume)
      → AgreeBelow offset (write_compressed_bytes os offset bs now v).1.files.disk v.files.disk
  unfolding write_compressed_bytes
  write-AgreeBelow offset bs now v j p lt below =
      write_file-frame (offset / volume_default_data_file_size)
        (offset % volume_default_data_file_size) bs now v.files j p (outside (Bool-cases _))
    where
      outside :
          ((num_eq j (offset / volume_default_data_file_size) ≡ true)
            ⊎ (num_eq j (offset / volume_default_data_file_size) ≡ false))
          → Outside
              (offset / volume_default_data_file_size)
              (offset % volume_default_data_file_size)
              (length bs)
              j
              p
      outside (inl same) =
          let e : j ≡ offset / volume_default_data_file_size = ground arith in
          inr (inl (omega arith))
      outside (inr other) = inl (λ e. ground arith)

  pub write-db :
      (offset : ℕ) (bs : List ℕ) (now : ℕ) (v : Volume)
      → (write_compressed_bytes os offset bs now v).1.db ≡ v.db
  unfolding write_compressed_bytes
  write-db offset bs now v = refl

module _ (blake3 : List ℕ → List ℕ) where
  -- The volume's allocation is sound and each stored chunk's bytes hash to its recorded hash.
  pub record IsIntact (v : Volume) : Type 0 where
    pub sound : IsSound v.db
    pub hashed :
        All
          (λ c. blake3_hash blake3 (chunk_bytes v.files.disk c) ≡ c.compressed_hash)
          v.db.conn.chunks

  abbrev Hashed : Disk → ChunkMeta → Type 0
  Hashed d c = blake3_hash blake3 (chunk_bytes d c) ≡ c.compressed_hash

  Hashed-same :
      (v : Volume) (d : Disk)
      → IsIntact v
      → AgreeBelow v.db.meta.active_volume_offset d v.files.disk
      → All (Hashed d) v.db.conn.chunks
  Hashed-same v d h agree =
      All-imp_both (Placed v.db.meta.active_volume_offset) (Hashed v.files.disk) (Hashed d)
        v.db.conn.chunks
        (λ c p q. ap (blake3_hash blake3) (chunk_bytes-same d v.files.disk _ c agree p) ∙ q)
        h.sound.placed h.hashed

  AgreeBelow-less :
      (low high : ℕ) (a b : Disk) → low ≤ high → AgreeBelow high a b → AgreeBelow low a b
  AgreeBelow-less low high a b le agree j p lt below = agree j p lt (omega arith)

  insert_and_load-state :
      (c : ChunkMeta) (db : VolumeDb) → (insert_and_load c db).1 ≡ (insert_chunk c db).1
  unfolding insert_and_load
  insert_and_load-state c db = elim (Result-cases (insert_chunk c db).0) [
    | inl (t, e) ↦ ground (arith, e)
    | inr (x, e) ↦ ground (arith, e)
  ]

  insert-Hashed :
      (d : Disk) (db : VolumeDb) (c : ChunkMeta)
      → All (Hashed d) db.conn.chunks
      → Hashed d c
      → All (Hashed d) (insert_chunk c db).1.conn.chunks
  insert-Hashed d db c h q = elim (insert_chunk-Inserts db c) [
    | inl (e, r) ↦ rw r h
    | inr (inl (x, f, r)) ↦ rw r h
    | inr (inr (f, r)) ↦ rw r (All-append (Hashed d) db.conn.chunks (c ∷ []) h (q, tt))
  ]

  -- The insertion of a chunk whose bytes are in place.
  insert-IsIntact :
      (v : Volume) (c : ChunkMeta)
      → IsIntact v
      → Placed v.db.meta.active_volume_offset c
      → Hashed v.files.disk c
      → IsIntact (on_db (insert_and_load c) v).1
  insert-IsIntact v c h p q = record {
    sound = rw (insert_and_load-state c v.db) (insert_chunk-IsSound v.db c h.sound p);
    hashed = rw (insert_and_load-state c v.db) (insert-Hashed v.files.disk v.db c h.hashed q);
  }

  module _ (os : Os) where
    -- A write above the active offset of `old`, whose chunks the database still has.
    write-IsIntact :
        (old v : Volume) (offset : ℕ) (bs : List ℕ) (now : ℕ)
        → IsIntact old
        → IsSound v.db
        → v.db.conn.chunks ≡ old.db.conn.chunks
        → v.files ≡ old.files
        → old.db.meta.active_volume_offset ≤ offset
        → IsIntact (write_compressed_bytes os offset bs now v).1
    unfolding write_compressed_bytes
    write-IsIntact old v offset bs now h s same files above = record {
      sound = rw (write-db os offset bs now v) s;
      hashed =
          rw (write-db os offset bs now v, same)
            (Hashed-same old _ h (
              AgreeBelow-less _ offset _ _ above
                (rw (← files) (write-AgreeBelow os offset bs now v))));
    }

    finish-IsIntact :
        (old v : Volume) (c : ChunkMeta) (bs : List ℕ) (now : ℕ)
        → IsIntact old
        → IsSound v.db
        → v.db.conn.chunks ≡ old.db.conn.chunks
        → v.files ≡ old.files
        → old.db.meta.active_volume_offset ≤ c.volume_offset
        → Placed v.db.meta.active_volume_offset c
        → c.compressed_len ≡ length bs
        → c.compressed_hash ≡ blake3_hash blake3 bs
        → IsIntact (finish_put os bs now (reserved c) v).1
    unfolding finish_put
    finish-IsIntact old v c bs now h s same files above p len hash =
        let w = write_compressed_bytes os c.volume_offset bs now v in
        let kept = write-IsIntact old v c.volume_offset bs now h s same files above in
        elim (Result-cases w.0) [
          | inr (x, e) ↦ rw (e, finish_put) kept
          | inl (t, e) ↦ rw (e, finish_put) (insert-IsIntact w.1 c kept p (written t e))
        ]
      where
        written :
            (t : Unit {0})
            → (write_compressed_bytes os c.volume_offset bs now v).0 ≡ ok t
            → Hashed (write_compressed_bytes os c.volume_offset bs now v).1.files.disk c
        written t e =
            ap
              (λ (n : ℕ). blake3_hash blake3 (
                bytes_at (write_compressed_bytes os c.volume_offset bs now v).1.files.disk
                  (c.volume_offset / volume_default_data_file_size)
                  (c.volume_offset % volume_default_data_file_size) n))
              len
            ∙ (ap (blake3_hash blake3)
                  (unfold write_compressed_bytes in write_file-ok os _ _ bs now v.files e)
                ∙ sym hash)

    place-IsIntact :
        (id : HashId) (raw : ℕ) (bs : List ℕ) (now : ℕ) (v : Volume)
        → IsIntact v
        → 0 < length bs
        → length bs ≤ volume_default_data_file_size
        → IsIntact
            ((on_db (reserve id (blake3_hash blake3 bs) raw (length bs) now)
                >>= finish_put os bs now)
              v).1
    place-IsIntact id raw bs now v h filled fits =
        let hash = blake3_hash blake3 bs in
        elim (reserve-Reserves v.db id hash raw (length bs) now h.sound) [
          | inl (e, p) ↦ rw p h
          | inr (inl (c, f, same, p)) ↦ rw p (unfold finish_put in h)
          | inr (inr (f, room, p)) ↦ rw p (
              finish-IsIntact v _ (new_chunk v.db id hash raw (length bs)) bs now h
                (raised-IsSound v.db _ now h.sound room) refl refl
                (place_bounds v.db.meta.active_volume_offset (length bs) fits).0
                (new_chunk-Placed v.db id hash raw (length bs) now filled fits) refl refl)
        ]

    filled_of : (bs : List ℕ) → is_nil bs ≡ false → 0 < length bs
    filled_of [] h = cc
    filled_of (b ∷ bs) h = omega arith

    -- Whatever a call of `put_chunk` returns, an intact volume stays intact: its allocation is sound
    -- and the bytes of every stored chunk hash to the chunk's recorded hash.
    pub put_chunk-IsIntact :
        (id : HashId) (raw : ℕ) (bs : List ℕ) (now : ℕ) (v : Volume)
        → IsIntact v
        → IsIntact (put_chunk os blake3 id raw bs now v).1
    unfolding put_chunk
    put_chunk-IsIntact id raw bs now v h = reject-keeps IsIntact (num_eq raw 0) _ _ v h λ positive.
        reject-keeps IsIntact (is_nil bs) _ _ v h λ some_bytes.
          reject-keeps IsIntact (ltb volume_default_data_file_size (length bs)) _ _ v h λ small.
            place-IsIntact id raw bs now v h (filled_of bs some_bytes) (ltb-false→le _ _ small)

    read_bytes-ok :
        (offset n now : ℕ) (v : Volume) (bs : List ℕ)
        → (read_compressed_bytes os offset n now v).0 ≡ ok bs
        → bs
          ≡ bytes_at v.files.disk
              (offset / volume_default_data_file_size)
              (offset % volume_default_data_file_size)
              n
    unfolding read_compressed_bytes
    read_bytes-ok offset n now v bs h = read_file-ok os _ _ n now v.files bs h

    -- A read that succeeds found the chunk and filled the buffer from its range.
    pub read_chunk-found :
        (id : HashId) (now : ℕ) (v : Volume) (c : ChunkMeta) (bs : List ℕ)
        → (read_chunk os id now v).0 ≡ ok (c, bs)
        → (find (has_chunk_id id) v.db.conn.chunks ≡ some c) × (bs ≡ chunk_bytes v.files.disk c)
    unfolding read_chunk
    read_chunk-found id now v c bs r =
        elim (Option-cases (find (has_chunk_id id) v.db.conn.chunks)) [
          | inl e ↦ absurd (ground (arith, e))
          | inr (d, e) ↦
              elim (Result-cases
                (read_compressed_bytes os d.volume_offset d.compressed_len now v).0) [
                  | inr (x, f) ↦ absurd (ground (arith, e, f))
                  | inl (cs, f) ↦
                      let g = read_bytes-ok d.volume_offset d.compressed_len now v cs f in
                      (ground (arith, e, f), ground (arith, e, f, g))
                ]
        ]

    -- A read that succeeds on an intact volume returns the metadata of the chunk with the given id
    -- and bytes that hash to the hash recorded with it.
    pub read_chunk-hashed :
        (id : HashId) (now : ℕ) (v : Volume) (c : ChunkMeta) (bs : List ℕ)
        → IsIntact v
        → (read_chunk os id now v).0 ≡ ok (c, bs)
        → (find (has_chunk_id id) v.db.conn.chunks ≡ some c)
          × (blake3_hash blake3 bs ≡ c.compressed_hash)
    read_chunk-hashed id now v c bs h r =
        let (found, filled) = read_chunk-found id now v c bs r in
        (
          found,
          ap (blake3_hash blake3) filled
              ∙ find-All (Hashed v.files.disk) (has_chunk_id id) v.db.conn.chunks c found h.hashed,
        )
