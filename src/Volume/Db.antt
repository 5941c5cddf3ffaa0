-- ===== src/Volume/Db.antt =====
-- crates/fs0-volume/src/db.rs. A statement does what its SQL says; failures of the disk under the
-- database are not modelled, those of constraints and of conversions are.
use fs.Prelude.{
  ℕ, suc, String, Bool, not, ◌&&◌, Option, none, some, List, [], ◌∷◌, ◌++◌, max, ltb, leb, num_eq,
  length, take, map, any, if◌then◌else◌,
}
use fs.Prelude.Rows.{find, select, delete, update, sum_by, order_by}
use fs.Core.Hash.{HashId, hash_eq}
use fs.Core.Error.{
  Fs0Error, Fs0Result, ok, err, lit, num, sqlite, invalid_data, chunk_not_found, bundle_not_found,
  ok_or,
}
use fs.Core.Error.{◌>>=◌ as and_then}
use fs.Core.Exec.{Exec, pure, lift, gets, modify, reject, transaction, ◌>>=◌, ◌>>◌}
use fs.Core.Convert.{column}
use fs.Core.Constants.{i64_mod}
use fs.Core.Protocol.{BundleChunkRef, BundleReplicaEvent, BundleReplicaEventKind, stored, deleted}
use fs.Volume.Types.{
  VolumeMeta, ChunkMeta, BundleMeta, BundleChunkRow, ChangeRecordRow, Tables, empty_tables,
  VolumeDb,
}

-- What SQLite answers when a constraint does not hold, when `SUM` leaves the range of an INTEGER,
-- and when `query_row` finds nothing.
abbrev pub foreign_key_failed : Fs0Error
foreign_key_failed = sqlite (lit "FOREIGN KEY constraint failed" ∷ [])

abbrev pub unique_failed : String → Fs0Error
unique_failed columns = sqlite (lit "UNIQUE constraint failed: " ∷ lit columns ∷ [])

abbrev pub sum_overflow : Fs0Error
sum_overflow = sqlite (lit "integer overflow" ∷ [])

abbrev pub no_rows : Fs0Error
no_rows = sqlite (lit "Query returned no rows" ∷ [])

abbrev pub sum_column : ℕ → Fs0Result ℕ
sum_column total = if ltb total i64_mod then ok total else err sum_overflow

-- The six `u64` parameters of the INSERT in `create`, bound in order.
unfoldable pub bind_meta : VolumeMeta → Fs0Result VolumeMeta
bind_meta m = and_then (column m.volume_id "volume_id") λ a.
    and_then (column m.format_version "format_version") λ b.
      and_then (column m.max_bytes "max_bytes") λ c.
        and_then (column m.active_volume_offset "active_volume_offset") λ d.
          and_then (column m.created_at_ms "created_at_ms") λ e.
            and_then (column m.updated_at_ms "updated_at_ms") λ f. ok (record {
              volume_id = a;
              format_version = b;
              max_bytes = c;
              active_volume_offset = d;
              created_at_ms = e;
              updated_at_ms = f;
            })

-- `VolumeDb::create`, on the file at the volume's root: the schema is written first.
unfoldable pub create : VolumeMeta → Exec (Option Tables) VolumeDb
create meta = do
  modify (λ _. some empty_tables)
  row ← lift (bind_meta meta)
  let conn : Tables = record empty_tables { volume_meta = some row }
  modify (λ _. some conn)
  pure (record { conn = conn; meta = meta })

unfoldable pub load_meta_from_conn : Tables → Fs0Result VolumeMeta
load_meta_from_conn conn = ok_or conn.volume_meta no_rows

-- `VolumeDb::open`
unfoldable pub open_db : Tables → Fs0Result VolumeDb
unfolding load_meta_from_conn
open_db conn = and_then (load_meta_from_conn conn) λ meta. ok (record { conn = conn; meta = meta })

-- UPDATE volume_meta SET ... WHERE id = 1
abbrev pub update_meta : (VolumeMeta → VolumeMeta) → Tables → Tables
update_meta f conn = record conn {
  volume_meta = elim conn.volume_meta [ none ↦ none | some m ↦ some (f m) ];
}

unfoldable pub assign_volume_id : ℕ → ℕ → Exec VolumeDb VolumeMeta
assign_volume_id volume_id updated_at_ms = do
  current ← gets (λ db. db.meta.volume_id)
  reject (not (num_eq current 0) && not (num_eq current volume_id)) (
      invalid_data
        (lit "volume already has id " ∷ num current ∷ lit ", cannot assign " ∷ num volume_id ∷ []))
  id ← lift (column volume_id "volume_id")
  at ← lift (column updated_at_ms "updated_at_ms")
  modify (λ db. record {
    conn = update_meta (λ m. record m { volume_id = id; updated_at_ms = at }) db.conn;
    meta = record (db.meta) { volume_id = volume_id; updated_at_ms = updated_at_ms };
  })
  gets (λ db. db.meta)

abbrev pub has_chunk_id : HashId → ChunkMeta → Bool
has_chunk_id id c = hash_eq c.chunk_id id

abbrev pub has_bundle_id : HashId → BundleChunkRow → Bool
has_bundle_id id r = hash_eq r.bundle_id id

unfoldable pub load_chunk : HashId → VolumeDb → Fs0Result ChunkMeta
load_chunk chunk_id db =
    ok_or (find (has_chunk_id chunk_id) db.conn.chunks) (chunk_not_found chunk_id)

-- The map that `load_chunks_by_ids` builds, as the rows whose id is among the given ones.
unfoldable pub load_chunks_by_ids : List HashId → VolumeDb → List ChunkMeta
load_chunks_by_ids chunk_ids db = select (λ c. any (hash_eq c.chunk_id) chunk_ids) db.conn.chunks

-- FROM bundle_chunks bc JOIN chunks c ON c.chunk_id = bc.chunk_id
unfoldable pub join_chunks : List ChunkMeta → List BundleChunkRow → List ChunkMeta
join_chunks chunks [] = []
join_chunks chunks (r ∷ rs) = elim (find (has_chunk_id r.chunk_id) chunks) [
  | none ↦ join_chunks chunks rs
  | some c ↦ c ∷ join_chunks chunks rs
]

-- The GROUP BY over the joined rows has a row only if there are any.
unfoldable pub group_rows : HashId → List ChunkMeta → Fs0Result BundleMeta
group_rows bundle_id [] = err (bundle_not_found bundle_id)
group_rows bundle_id (c ∷ cs) = and_then (sum_column (sum_by (λ c. c.raw_len) (c ∷ cs))) λ raw_len.
    and_then (sum_column (sum_by (λ c. c.compressed_len) (c ∷ cs))) λ compressed_len. ok (record {
      bundle_id = bundle_id;
      raw_len = raw_len;
      compressed_len = compressed_len;
      chunk_count = length (c ∷ cs);
    })

-- The chunks of a bundle, joined.
abbrev pub bundle_rows : HashId → Tables → List ChunkMeta
bundle_rows bundle_id conn =
    join_chunks conn.chunks (select (has_bundle_id bundle_id) conn.bundle_chunks)

unfoldable pub load_bundle : HashId → VolumeDb → Fs0Result BundleMeta
unfolding group_rows
load_bundle bundle_id db = group_rows bundle_id (bundle_rows bundle_id db.conn)

-- INSERT ... ON CONFLICT(chunk_id) DO NOTHING
unfoldable pub insert_chunk : ChunkMeta → Exec VolumeDb (Unit {0})
insert_chunk chunk = do
  offset ← lift (column chunk.volume_offset "volume offset")
  raw ← lift (column chunk.raw_len "raw len")
  compressed ← lift (column chunk.compressed_len "compressed len")
  modify (λ db. elim (find (has_chunk_id chunk.chunk_id) db.conn.chunks) [
    | some _ ↦ db
    | none ↦ record db {
      conn = record (db.conn) {
        chunks =
            db.conn.chunks
            ++ record chunk { volume_offset = offset; raw_len = raw; compressed_len = compressed }
              ∷ [];
      };
    }
  ])

unfoldable pub reserve_active_volume_offset : ℕ → ℕ → Exec VolumeDb VolumeMeta
unfolding load_meta_from_conn
reserve_active_volume_offset active_volume_offset updated_at_ms = do
  offset ← lift (column active_volume_offset "active volume offset")
  at ← lift (column updated_at_ms "updated_at_ms")
  modify (λ db. record db {
    conn =
        update_meta
          (λ m. record m {
            active_volume_offset = max m.active_volume_offset offset;
            updated_at_ms = at;
          })
          db.conn;
  })
  conn ← gets (λ db. db.conn)
  meta ← lift (load_meta_from_conn conn)
  modify (λ db. record db { meta = meta })
  pure meta

abbrev pub refers_to : HashId → BundleChunkRow → Bool
refers_to id r = hash_eq r.chunk_id id

-- `bundle_chunks.chunk_id` refers to `chunks` with ON DELETE RESTRICT.
unfoldable pub delete_chunk : HashId → Exec VolumeDb (Unit {0})
delete_chunk chunk_id = do
  conn ← gets (λ db. db.conn)
  reject (any (has_chunk_id chunk_id) conn.chunks && any (refers_to chunk_id) conn.bundle_chunks)
      foreign_key_failed
  modify (λ db. record db {
    conn = record (db.conn) { chunks = delete (has_chunk_id chunk_id) db.conn.chunks };
  })

-- One INSERT INTO bundle_chunks, with its primary key and its foreign key.
unfoldable pub insert_bundle_chunk : HashId → BundleChunkRef → Exec Tables (Unit {0})
insert_bundle_chunk bundle_id chunk = do
  index ← lift (column chunk.chunk_index "chunk_index")
  conn ← gets (λ conn. conn)
  reject (any (λ r. hash_eq r.bundle_id bundle_id && num_eq r.chunk_index index) conn.bundle_chunks)
      (unique_failed "bundle_chunks.bundle_id, bundle_chunks.chunk_index")
  reject (not (any (has_chunk_id chunk.chunk_id) conn.chunks)) foreign_key_failed
  modify (λ conn. record conn {
    bundle_chunks =
        conn.bundle_chunks
        ++ record { bundle_id = bundle_id; chunk_index = index; chunk_id = chunk.chunk_id } ∷ [];
  })

unfoldable pub insert_bundle_chunks : HashId → List BundleChunkRef → Exec Tables (Unit {0})
insert_bundle_chunks bundle_id [] = pure tt
insert_bundle_chunks bundle_id (c ∷ cs) = do
  insert_bundle_chunk bundle_id c
  insert_bundle_chunks bundle_id cs

abbrev pub is_record_of : HashId → ChangeRecordRow → Bool
is_record_of id r = hash_eq r.bundle_id id

-- INSERT ... ON CONFLICT(bundle_id) DO UPDATE SET event_type
unfoldable pub insert_bundle_change_record_tx :
    HashId → BundleReplicaEventKind → Exec Tables (Unit {0})
insert_bundle_change_record_tx bundle_id kind = modify λ conn.
    if any (is_record_of bundle_id) conn.bundle_change_records
    then record conn {
      bundle_change_records =
          update (is_record_of bundle_id) (λ r. record r { kind = kind })
            conn.bundle_change_records;
    }
    else record conn {
      bundle_change_records =
          conn.bundle_change_records
          ++ record { event_id = suc conn.last_event_id; kind = kind; bundle_id = bundle_id } ∷ [];
      last_event_id = suc conn.last_event_id;
    }

abbrev pub delete_bundle_rows : HashId → Exec Tables (Unit {0})
delete_bundle_rows bundle_id =
    modify
      λ conn. record conn { bundle_chunks = delete (has_bundle_id bundle_id) conn.bundle_chunks }

-- Run an action of the connection on the struct that holds it.
abbrev pub on_conn : {A : Type 0} → Exec Tables A → Exec VolumeDb A
on_conn m db = let (r, conn) = m db.conn in (r, record db { conn = conn })

-- The transaction of `commit_bundle`.
unfoldable pub commit_bundle_tx : HashId → List BundleChunkRef → Exec Tables (Unit {0})
unfolding insert_bundle_chunks insert_bundle_chunk insert_bundle_change_record_tx
commit_bundle_tx bundle_id chunks = transaction (do
  delete_bundle_rows bundle_id
  insert_bundle_chunks bundle_id chunks
  insert_bundle_change_record_tx bundle_id stored)

unfoldable pub commit_bundle_db : HashId → List BundleChunkRef → Exec VolumeDb BundleMeta
unfolding commit_bundle_tx load_bundle
commit_bundle_db bundle_id chunks = do
  on_conn (commit_bundle_tx bundle_id chunks)
  db ← gets (λ db. db)
  lift (load_bundle bundle_id db)

unfoldable pub delete_bundle : HashId → Exec VolumeDb (Unit {0})
unfolding insert_bundle_change_record_tx
delete_bundle bundle_id = on_conn (
    transaction (do delete_bundle_rows bundle_id; insert_bundle_change_record_tx bundle_id deleted))

-- SELECT chunk_index, chunk_id ... ORDER BY chunk_index
unfoldable pub list_bundle_chunks_db : HashId → VolumeDb → List BundleChunkRef
list_bundle_chunks_db bundle_id db =
    map (λ (r : BundleChunkRow). record { chunk_index = r.chunk_index; chunk_id = r.chunk_id })
      (order_by (λ r. r.chunk_index) (select (has_bundle_id bundle_id) db.conn.bundle_chunks))

-- A row of `get_bundle_change_records`: the sums over the LEFT JOIN are 0 where nothing joins.
unfoldable pub to_event : VolumeDb → ChangeRecordRow → Fs0Result BundleReplicaEvent
to_event db e =
    let rows = bundle_rows e.bundle_id db.conn in
    and_then (sum_column (sum_by (λ c. c.raw_len) rows)) λ raw_len.
      and_then (sum_column (sum_by (λ c. c.compressed_len) rows)) λ compressed_len. ok (record {
        event_id = e.event_id;
        kind = e.kind;
        volume_id = db.meta.volume_id;
        bundle_id = e.bundle_id;
        raw_len = some raw_len;
        compressed_len = some compressed_len;
      })

unfoldable pub to_events : VolumeDb → List ChangeRecordRow → Fs0Result (List BundleReplicaEvent)
unfolding to_event
to_events db [] = ok []
to_events db (e ∷ es) =
    and_then (to_event db e) λ event. and_then (to_events db es) λ events. ok (event ∷ events)

unfoldable pub get_bundle_change_records : ℕ → VolumeDb → Fs0Result (List BundleReplicaEvent)
unfolding to_events
get_bundle_change_records limit db =
    and_then (column limit "limit")
      λ n. to_events db (take n (order_by (λ r. r.event_id) db.conn.bundle_change_records))

unfoldable pub remove_bundle_change_records : ℕ → Exec VolumeDb (Unit {0})
remove_bundle_change_records max_event_id = do
  id ← lift (column max_event_id "max_event_id")
  modify (λ db. record db {
    conn = record (db.conn) {
      bundle_change_records = delete (λ r. leb r.event_id id) db.conn.bundle_change_records;
    };
  })
