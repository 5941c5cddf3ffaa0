-- ===== src/Central/Volumes.antt =====
-- crates/fs0-central/src/db/volume.rs: the volumes that the central service has numbered.
use fs.Prelude.{ℕ, ◌+◌, Bool, false, not, [], ◌∷◌, ◌++◌, any, num_eq}
use fs.Prelude.Rows.{find, update}
use fs.Core.Error.{Text, not_found, ok_or}
use fs.Core.Exec.{Exec, pure, lift, gets, modify, reject, ◌>>=◌, ◌>>◌}
use fs.Core.Convert.{column}
use fs.Core.Protocol.{StorageVolumeInfo}
use fs.Central.Types.{CentralDb, VolumeRow}

abbrev pub has_volume_id : ℕ → VolumeRow → Bool
has_volume_id volume_id v = num_eq v.volume_id volume_id

abbrev pub row_to_storage_volume_info : VolumeRow → StorageVolumeInfo
row_to_storage_volume_info v = record {
  volume_id = v.volume_id;
  name = v.name;
  max_bytes = v.max_bytes;
  max_volume_offset = v.max_volume_offset;
  read_only = false;
}

unfoldable pub get_volume : ℕ → Exec CentralDb StorageVolumeInfo
get_volume volume_id = do
  volume_id ← lift (column volume_id "volume_id")
  db ← gets (λ db. db)
  v ← lift (ok_or (find (has_volume_id volume_id) db.volumes) not_found)
  pure (row_to_storage_volume_info v)

unfoldable pub create_volume : Text → ℕ → Exec CentralDb StorageVolumeInfo
unfolding get_volume
create_volume name max_bytes = do
  max_bytes ← lift (column max_bytes "max_bytes")
  id ← gets (λ db. db.volume_seq + 1)
  let row : VolumeRow = record {
    volume_id = id;
    name = name;
    max_bytes = max_bytes;
    max_volume_offset = 0;
  }
  modify (λ db. record db { volumes = db.volumes ++ (row ∷ []); volume_seq = id })
  get_volume id

-- UPDATE volumes SET max_volume_offset = ?2 WHERE volume_id = ?1
abbrev pub set_offset : ℕ → ℕ → CentralDb → CentralDb
set_offset volume_id offset db = record db {
  volumes =
      update (has_volume_id volume_id) (λ v. record v { max_volume_offset = offset }) db.volumes;
}

unfoldable pub update_volume_offset : ℕ → ℕ → Exec CentralDb StorageVolumeInfo
unfolding get_volume
update_volume_offset volume_id max_volume_offset = do
  id ← lift (column volume_id "volume_id")
  offset ← lift (column max_volume_offset "max_volume_offset")
  changes ← gets (λ db. any (has_volume_id id) db.volumes)
  modify (set_offset id offset)
  reject (not changes) not_found
  get_volume volume_id
