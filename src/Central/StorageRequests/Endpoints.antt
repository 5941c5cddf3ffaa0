-- ===== src/Central/StorageRequests/Endpoints.antt =====
-- What a storage server changes of a volume that is not its own (request_handlers/storage.rs).
use fs.Prelude.{ℕ, ◌<◌, ◌≡◌, inl, inr, Bool-cases, true, false, some, List, [], ◌∷◌, any, arith}
use fs.Prelude.Rows.{find, update}
use fs.Core.Constants.{i64_mod}
use fs.Core.Error.{ok, err, not_found}
use fs.Core.Convert.{column-ok}
use fs.Core.Protocol.{StorageVolumeInfo, StoragePeerInfo}
use fs.Central.Types.{CentralDb, VolumeRow}
use fs.Central.Volumes.{
  get_volume, has_volume_id, row_to_storage_volume_info, set_offset, update_volume_offset,
}
use fs.Central.Server.{CentralServer, has_storage_id}
use fs.Central.StorageRequests.{has_info_id, update_storage_volume_offset}

found-set_offset :
    (vid offset : ℕ) (rows : List VolumeRow)
    → any (has_volume_id vid) rows ≡ true
    → (r : VolumeRow) × (find
          (has_volume_id vid)
          (update (has_volume_id vid) (λ v. record v { max_volume_offset = offset }) rows)
        ≡ some r)
unfolding find update
found-set_offset vid offset [] h = absurd cc
found-set_offset vid offset (v ∷ vs) h = elim (Bool-cases (has_volume_id vid v)) [
  | inl p ↦ (record v { max_volume_offset = offset }, ground (arith, p))
  | inr p ↦
      let (r, q) = found-set_offset vid offset vs (ground (arith, p, h)) in
      (r, ground (arith, p, q))
]

update_volume_offset-ok :
    (vid offset : ℕ) (db : CentralDb)
    → vid < i64_mod
    → offset < i64_mod
    → any (has_volume_id vid) db.volumes ≡ true
    → (row : StorageVolumeInfo) × (update_volume_offset vid offset db
        ≡ (ok row, set_offset vid offset db))
unfolding update_volume_offset get_volume
update_volume_offset-ok vid offset db hv ho known =
    let (r, q) = found-set_offset vid offset db.volumes known in
    (
      row_to_storage_volume_info r,
      ground
          (arith, column-ok vid "volume_id" hv, column-ok offset "max_volume_offset" ho, known, q),
    )

-- A storage server that asks for a new offset of a volume which it has not got is told that there
-- is no such thing, and yet the row of the volume has the new offset from then on.
pub update_storage_volume_offset_foreign :
    (sid vid offset : ℕ) (s : CentralServer) (peer : StoragePeerInfo)
    → vid < i64_mod
    → offset < i64_mod
    → any (has_volume_id vid) s.db.volumes ≡ true
    → find (has_storage_id sid) s.storages ≡ some peer
    → any (has_info_id vid) peer.volumes ≡ false
    → update_storage_volume_offset sid vid offset s
      ≡ (err not_found, record s { db = set_offset vid offset s.db })
unfolding update_storage_volume_offset
update_storage_volume_offset_foreign sid vid offset s peer hv ho known p free =
    let (row, q) = update_volume_offset-ok vid offset s.db hv ho known in ground (arith, q, p, free)
