-- ===== src/Central/Leases.antt =====
-- crates/fs0-central/src/db/lease.rs: the update leases. A connection of SQLite has foreign keys on:
-- a lease names a file and a volume that exist, and the unique index lets a file have one lease.
pub mod Lifecycle
use fs.Prelude.{
  ℕ, suc, ◌+◌, Bool, not, ◌&&◌, ◌||◌, Option, none, some, List, [], ◌∷◌, ◌++◌, ltb, leb, num_eq,
  any,
}
use fs.Prelude.Rows.{find, delete}
use fs.Core.Error.{Fs0Error, lit, sqlite, not_found, ok_or}
use fs.Core.Exec.{Exec, pure, lift, gets, modify, reject, ◌>>=◌, ◌>>◌}
use fs.Core.Convert.{column}
use fs.Core.Protocol.{UpdateLease}
use fs.Central.Types.{CentralDb, LeaseRow, LeaseRecord, CreateUpdateLease}

abbrev pub foreign_key_failed : Fs0Error
foreign_key_failed = sqlite (lit "FOREIGN KEY constraint failed" ∷ [])

abbrev pub unique_failed : Fs0Error
unique_failed = sqlite (lit "UNIQUE constraint failed: update_leases.file_id" ∷ [])

abbrev pub has_expired : ℕ → LeaseRow → Bool
has_expired now l = leb l.expires_at_ms now

abbrev pub is_lease_of_file : ℕ → LeaseRow → Bool
is_lease_of_file file_id l = num_eq l.file_id file_id

abbrev pub has_lease_id : ℕ → LeaseRow → Bool
has_lease_id lease_id l = num_eq l.lease_id lease_id

abbrev pub volume_exists : ℕ → CentralDb → Bool
volume_exists volume_id db = any (λ v. num_eq v.volume_id volume_id) db.volumes

abbrev pub file_exists : ℕ → CentralDb → Bool
file_exists file_id db = any (λ f. num_eq f.file_id file_id) db.files

unfoldable pub delete_expired_update_leases : ℕ → Exec CentralDb (Unit {0})
delete_expired_update_leases now_ms = do
  now ← lift (column now_ms "expires_at_ms")
  modify (λ db. record db { update_leases = delete (has_expired now) db.update_leases })

unfoldable pub file_has_active_update_lease : ℕ → Exec CentralDb Bool
file_has_active_update_lease file_id = do
  file_id ← lift (column file_id "file_id")
  gets (λ db. any (is_lease_of_file file_id) db.update_leases)

-- The seven parameters of the INSERT, bound in order.
unfoldable pub bind_lease : CreateUpdateLease → Exec CentralDb LeaseRow
bind_lease lease = do
  file_id ← lift (column lease.file_id "file_id")
  volume_id ← lift (column lease.volume_id "volume_id")
  base_size_bytes ← lift (column lease.base_size_bytes "base_size_bytes")
  offset_bytes ← lift (column lease.offset_bytes "offset_bytes")
  expires_at_ms ← lift (column lease.expires_at_ms "expires_at_ms")
  created_at_ms ← lift (column lease.created_at_ms "created_at_ms")
  db ← gets (λ db. db)
  pure (record {
    lease_id = db.lease_seq + 1;
    file_id = file_id;
    volume_id = volume_id;
    base_size_bytes = base_size_bytes;
    offset_bytes = offset_bytes;
    prefer_volume_name = lease.prefer_volume_name;
    expires_at_ms = expires_at_ms;
    created_at_ms = created_at_ms;
  })

-- INSERT INTO update_leases
unfoldable pub insert_lease : LeaseRow → Exec CentralDb (Unit {0})
insert_lease row = do
  db ← gets (λ db. db)
  reject (any (is_lease_of_file row.file_id) db.update_leases) unique_failed
  reject (not (file_exists row.file_id db) || not (volume_exists row.volume_id db))
      foreign_key_failed
  modify
      (λ db. record db { update_leases = db.update_leases ++ (row ∷ []); lease_seq = row.lease_id })

unfoldable pub create_update_lease : CreateUpdateLease → Exec CentralDb UpdateLease
unfolding bind_lease insert_lease
create_update_lease lease = do
  row ← bind_lease lease
  insert_lease row
  pure (record {
    lease_id = row.lease_id;
    file_id = lease.file_id;
    volume_id = lease.volume_id;
    base_size = lease.base_size_bytes;
    offset = lease.offset_bytes;
    expires_at_ms = lease.expires_at_ms;
    prefer_volume_name = lease.prefer_volume_name;
  })

-- WHERE lease_id = ?1 AND file_id = ?2 AND expires_at_ms > ?3
abbrev pub is_active : ℕ → ℕ → ℕ → LeaseRow → Bool
is_active lease_id file_id now l =
    num_eq l.lease_id lease_id && num_eq l.file_id file_id && ltb now l.expires_at_ms

unfoldable pub find_active : ℕ → ℕ → ℕ → Exec CentralDb LeaseRow
find_active lease_id file_id now = do
  lease_id ← lift (column lease_id "lease_id")
  file_id ← lift (column file_id "file_id")
  now ← lift (column now "now_ms")
  db ← gets (λ db. db)
  lift (ok_or (find (is_active lease_id file_id now) db.update_leases) not_found)

unfoldable pub load_active_update_lease : ℕ → ℕ → ℕ → Exec CentralDb LeaseRecord
unfolding find_active
load_active_update_lease lease_id file_id now = do
  l ← find_active lease_id file_id now
  pure (record {
    file_id = l.file_id;
    base_size_bytes = l.base_size_bytes;
    offset_bytes = l.offset_bytes;
  })

unfoldable pub active_update_lease_volume : ℕ → ℕ → ℕ → Exec CentralDb ℕ
unfolding find_active
active_update_lease_volume lease_id file_id now = do
  l ← find_active lease_id file_id now
  pure l.volume_id

unfoldable pub delete_update_lease : ℕ → Exec CentralDb (Unit {0})
delete_update_lease lease_id = do
  lease_id ← lift (column lease_id "lease_id")
  modify (λ db. record db { update_leases = delete (has_lease_id lease_id) db.update_leases })
