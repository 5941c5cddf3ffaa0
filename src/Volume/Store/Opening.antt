-- ===== src/Volume/Store/Opening.antt =====
-- Creating a volume and opening it (volume.rs).
use fs.Prelude.{
  ℕ, zero, suc, ◌/◌, ◌<◌, ◌≤◌, ◌≡◌, ap, refl, inl, inr, none, some, [], ◌∷◌, length, arith,
}
use fs.Core.Error.{Text, ok, err, lit, num, integer_conversion, already_exists, Result-cases}
use fs.Core.Convert.{column-ok, column_roundtrip}
use fs.Core.Constants.{i64_mod, volume_default_data_file_size}
use fs.Volume.Types.{VolumeMeta, Tables, empty_tables, VolumeDb}
use fs.Volume.Db.{create, bind_meta, open_db, load_meta_from_conn, no_rows}
use fs.Volume.Disk.{Disk}
use fs.Volume.DataFiles.{new_slots}
use fs.Volume.Store.{Volume, init_fs, open_volume, div_ceil}

length-new_slots : (n : ℕ) → length (new_slots n) ≡ n
length-new_slots zero = refl
length-new_slots (suc n) = omega (arith, length-new_slots n)

fresh_meta : ℕ → ℕ → VolumeMeta
fresh_meta max_bytes now = record {
  volume_id = 0;
  format_version = 1;
  max_bytes = max_bytes;
  active_volume_offset = 0;
  created_at_ms = now;
  updated_at_ms = now;
}

div_ceil-covers :
    (a m : ℕ) → a < m → a / volume_default_data_file_size < div_ceil m volume_default_data_file_size
div_ceil-covers a m h = grind (arith, h)

opened-files :
    (path : Text) (conn : Tables) (disk : Disk) (v : Volume) (db : VolumeDb)
    → open_db conn ≡ ok db
    → open_volume path (some conn) disk ≡ ok v
    → (v.db ≡ db)
      × (v.files.slots ≡ new_slots (div_ceil db.meta.max_bytes volume_default_data_file_size))
unfolding open_volume
opened-files path conn disk v db p h = ground (arith, p, h)

-- A volume that was opened has a slot for the data file of every place below its size.
pub open_volume-slots :
    (path : Text) (conn : Tables) (disk : Disk) (v : Volume) (offset : ℕ)
    → open_volume path (some conn) disk ≡ ok v
    → offset < v.db.meta.max_bytes
    → offset / volume_default_data_file_size < length v.files.slots
unfolding open_volume
open_volume-slots path conn disk v offset h below = elim (Result-cases (open_db conn)) [
  | inr (e, p) ↦ absurd (ground (arith, p, h))
  | inl (db, p) ↦
      let (q, r) = opened-files path conn disk v db p h in
      rw (r, length-new_slots)
        (div_ceil-covers offset db.meta.max_bytes
          (omega (arith, ap (λ d. d.meta.max_bytes) q, below)))
]

-- When the size of a new volume does not fit in the INTEGER column of the database, `init_fs` fails
-- with the error of the conversion and leaves a database file without its row behind, which neither
-- a second `init_fs`, of a size that is large enough, nor `open_volume` accepts.
pub init_fs_oversized :
    (path : Text) (max_bytes again now : ℕ) (disk : Disk)
    → i64_mod ≤ max_bytes
    → volume_default_data_file_size ≤ again
    → (init_fs path max_bytes now none ≡ (
      err (
          integer_conversion
            (lit "max_bytes" ∷ lit " value " ∷ num max_bytes ∷ lit " does not fit in i64" ∷ [])),
      some empty_tables,
    ))
      × (init_fs path again now (some empty_tables)
          ≡ (err (already_exists path), some empty_tables))
      × (open_volume path (some empty_tables) disk ≡ err no_rows)
unfolding init_fs open_volume create bind_meta open_db load_meta_from_conn
init_fs_oversized path max_bytes again now disk h k =
    elim (column_roundtrip max_bytes "max_bytes") [
      | inl (p, q, r) ↦ absurd (omega (arith, p, h))
      | inr (p, q) ↦ (
        ground (
          arith,
          q,
          h,
          column-ok 0 "volume_id" (omega arith),
          column-ok 1 "format_version" (omega arith),
        ),
        ground (arith, k),
        refl,
      )
    ]
