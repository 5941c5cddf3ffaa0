-- ===== src/Examples/VolumeCases.antt =====
-- The theorems on a volume, on one of two data files.
use fs.Prelude.{
  ℕ, ◌+◌, ◌/◌, ◌<◌, ◌≤◌, ◌≡◌, ◌≢◌, ◌⊎◌, All, refl, List, [], ◌∷◌, length, none, some, arith,
  bytes_eq,
}
use fs.Prelude.Rows.{find, select, delete, update, sum_by, order_by}
use fs.Core.Hash.{HashId, blake3_hash}
use fs.Core.Error.{
  ok, err, lit, num, integer_conversion, Fs0Error, bundle_not_found, already_exists, Text,
}
use fs.Core.Constants.{volume_default_data_file_size, i64_mod}
use fs.Core.Convert.{column}
use fs.Core.Protocol.{BundleChunkRef, stored}
use fs.Volume.Types.{ChunkMeta, BundleMeta, ChangeRecordRow, empty_tables, VolumeDb}
use fs.Volume.Db.{
  has_chunk_id, load_bundle, delete_bundle, remove_bundle_change_records, join_chunks, no_rows,
}
use fs.Volume.Disk.{write_at, read_at}
use fs.Volume.Store.{
  Volume, put_chunk, read_chunk, reserve, place, commit_bundle, list_bundle_chunks,
  bundle_hash_from_chunks, init_fs, open_volume,
}
use fs.Volume.Store.Placement.{IsSound, reserve-Placed, Placed, Same, new_chunk}
use fs.Volume.Store.Integrity.{IsIntact, put_chunk-IsIntact, read_chunk-hashed}
use fs.Volume.Store.Roundtrip.{read_chunk-put_chunk}
use fs.Volume.Store.Bundles.{list_bundle_chunks-commit_bundle}
use fs.Volume.Store.Changes.{delete_bundle_unreported}
use fs.Volume.Store.Opening.{open_volume-slots, init_fs_oversized}
use fs.Examples.Values.{
  byte_os, toy_hash, id_of, two_files, two_files-IsSound, two_files-IsIntact, two_files_meta,
  two_files_tables,
}

abbrev seven : HashId
seven = id_of (7 ∷ [])

abbrev two_bytes : List ℕ
two_bytes = 1 ∷ 2 ∷ []

-- The chunk as it is stored first.
abbrev stored_chunk : ChunkMeta
stored_chunk = record {
  chunk_id = seven;
  compressed_hash = id_of (2 ∷ 1 ∷ 2 ∷ []);
  volume_offset = 0;
  raw_len = 3;
  compressed_len = 2;
}

put_chunk-IsIntact_example :
    IsIntact toy_hash (put_chunk byte_os toy_hash seven 3 two_bytes 9 two_files).1
put_chunk-IsIntact_example =
    put_chunk-IsIntact toy_hash byte_os seven 3 two_bytes 9 two_files two_files-IsIntact

-- The volume with the chunk.
after_put : Volume
after_put = (put_chunk byte_os toy_hash seven 3 two_bytes 9 two_files).1

after_put-IsIntact : IsIntact toy_hash after_put
unfolding after_put
after_put-IsIntact =
    put_chunk-IsIntact toy_hash byte_os seven 3 two_bytes 9 two_files two_files-IsIntact

read_chunk-hashed_example :
    (find (has_chunk_id seven) after_put.db.conn.chunks ≡ some stored_chunk)
    × (blake3_hash toy_hash two_bytes ≡ stored_chunk.compressed_hash)
unfolding after_put put_chunk read_chunk bytes_eq find column write_at read_at
read_chunk-hashed_example =
    read_chunk-hashed toy_hash byte_os seven 10 after_put stored_chunk two_bytes after_put-IsIntact
      refl

read_chunk-put_chunk_example :
    (find
        (has_chunk_id seven)
        (put_chunk byte_os toy_hash seven 3 two_bytes 9 two_files).1.db.conn.chunks
      ≡ some stored_chunk)
    × Same stored_chunk (blake3_hash toy_hash two_bytes) 3 (length two_bytes)
    × (((e : Fs0Error) × ((read_chunk byte_os seven 10
              (put_chunk byte_os toy_hash seven 3 two_bytes 9 two_files).1).0
            ≡ err e))
        ⊎ ((cs : List ℕ) × ((read_chunk byte_os seven 10
                (put_chunk byte_os toy_hash seven 3 two_bytes 9 two_files).1).0
              ≡ ok (stored_chunk, cs))
            × (blake3_hash toy_hash cs ≡ blake3_hash toy_hash two_bytes)
            × (length cs ≡ length two_bytes)))
unfolding put_chunk bytes_eq find column write_at
read_chunk-put_chunk_example =
    read_chunk-put_chunk byte_os toy_hash seven 3 two_bytes 9 10 two_files stored_chunk
      two_files-IsIntact refl

abbrev place_five : ChunkMeta
place_five = new_chunk two_files.db seven (id_of (5 ∷ [])) 3 2

reserve-Placed_example :
    (find (has_chunk_id seven) two_files.db.conn.chunks ≡ none)
    × (place_five ≡ new_chunk two_files.db seven (id_of (5 ∷ [])) 3 2)
    × All
        (λ d. d.volume_offset + d.compressed_len ≤ place_five.volume_offset)
        two_files.db.conn.chunks
    × (place_five.volume_offset + 2 ≤ two_files.db.meta.max_bytes)
    × Placed
        (reserve seven (id_of (5 ∷ [])) 3 2 9 two_files.db).1.meta.active_volume_offset
        place_five
    × IsSound (reserve seven (id_of (5 ∷ [])) 3 2 9 two_files.db).1
unfolding reserve find column place
reserve-Placed_example =
    reserve-Placed two_files.db seven (id_of (5 ∷ [])) 3 2 9 place_five two_files-IsSound
      (omega arith) (omega arith) refl

-- The database with the chunk in it.
abbrev chunk_db : VolumeDb
chunk_db = record {
  conn = record two_files_tables {
    volume_meta = some (record two_files_meta { active_volume_offset = 2 });
    chunks = stored_chunk ∷ [];
  };
  meta = record two_files_meta { active_volume_offset = 2 };
}

chunk_db-IsSound : IsSound chunk_db
chunk_db-IsSound = record {
  loaded = refl;
  bounded = omega arith;
  fits = omega arith;
  placed = (record { filled = omega arith; below = omega arith; in_file = omega arith }, tt);
}

abbrev one_ref : BundleChunkRef
one_ref = record { chunk_index = 0; chunk_id = seven }

abbrev bundle_id : HashId
bundle_id = id_of (1 ∷ 7 ∷ [])

abbrev bundle : BundleMeta
bundle = record { bundle_id = bundle_id; raw_len = 3; compressed_len = 2; chunk_count = 1 }

list_bundle_chunks-commit_bundle_example :
    (list_bundle_chunks bundle_id (commit_bundle toy_hash bundle_id (one_ref ∷ []) chunk_db).1
      ≡ ok (one_ref ∷ []))
    × (load_bundle bundle_id (commit_bundle toy_hash bundle_id (one_ref ∷ []) chunk_db).1
        ≡ ok bundle)
    × (bundle_hash_from_chunks toy_hash (one_ref ∷ []) ≡ bundle_id)
    × (one_ref ∷ [] ≢ [])
unfolding commit_bundle load_bundle bytes_eq find select update order_by sum_by column join_chunks
    delete
list_bundle_chunks-commit_bundle_example =
    list_bundle_chunks-commit_bundle toy_hash bundle_id (one_ref ∷ []) chunk_db bundle refl refl

abbrev pending_record : ChangeRecordRow
pending_record = record { event_id = 1; kind = stored; bundle_id = bundle_id }

-- A bundle with its record of being stored still to be reported.
abbrev pending_db : VolumeDb
pending_db = record {
  conn = record two_files_tables { bundle_change_records = pending_record ∷ []; last_event_id = 1 };
  meta = two_files_meta;
}

delete_bundle_unreported_example :
    let after = (remove_bundle_change_records 1 (delete_bundle bundle_id pending_db).1).1 in
    (load_bundle bundle_id after ≡ err (bundle_not_found bundle_id))
    × (after.conn.bundle_change_records ≡ [])
unfolding bytes_eq
delete_bundle_unreported_example =
    delete_bundle_unreported bundle_id 1 pending_db refl (omega arith, tt) (omega arith)

abbrev db_path : Text
db_path = 47 ∷ 118 ∷ []

open_volume-slots_example :
    (volume_default_data_file_size + 4) / volume_default_data_file_size
    < length two_files.files.slots
unfolding open_volume
open_volume-slots_example =
    open_volume-slots db_path two_files_tables (λ i o. 0) two_files
      (volume_default_data_file_size + 4) refl (omega arith)

init_fs_oversized_example :
    (init_fs db_path i64_mod 9 none ≡ (
      err (
          integer_conversion
            (lit "max_bytes" ∷ lit " value " ∷ num i64_mod ∷ lit " does not fit in i64" ∷ [])),
      some empty_tables,
    ))
    × (init_fs db_path volume_default_data_file_size 9 (some empty_tables)
        ≡ (err (already_exists db_path), some empty_tables))
    × (open_volume db_path (some empty_tables) (λ i o. 0) ≡ err no_rows)
init_fs_oversized_example =
    init_fs_oversized db_path i64_mod volume_default_data_file_size 9 (λ i o. 0) (omega arith)
      (omega arith)
