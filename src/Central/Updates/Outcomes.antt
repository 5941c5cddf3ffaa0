-- ===== src/Central/Updates/Outcomes.antt =====
-- The outcomes of `begin_update` and `commit_update` on the tables of the server.
use fs.Prelude.{ℕ, ◌+◌, ◌≤◌, ◌≡◌, ◌⊎◌, inl, inr, Option, none, arith, Option-cases}
use mathlib.Core.Path.{sym, subst}
use fs.Prelude.Rows.{find, delete, find-delete}
use fs.Core.Constants.{i64_mod, update_lease_ttl_ms}
use fs.Core.Error.{Fs0Error, Fs0Result, ok, err, already_exists, Result-cases}
use fs.Core.Exec.{bind_sound, reject-ok}
use fs.Central.Dirs.{CentralTx}
use fs.Central.Leases.Lifecycle.{IsHeld, create_update_lease-IsHeld}
use fs.Core.Convert.{column-cases, column_roundtrip}
use fs.Core.Protocol.{
  BeginUpdateRequest, CommitUpdateRequest, FileRecord, GrantUploadLeaseRequest, UpdateLease,
}
use fs.Central.Types.{CentralDb, FileRow}
use fs.Central.Leases.{
  has_lease_id, is_active, find_active, active_update_lease_volume, delete_update_lease,
  delete_expired_update_leases, file_has_active_update_lease,
}
use fs.Central.Server.{CentralServer, on_central_tx, tx_of}
use fs.Central.Updates.{GrantReply, grant_upload_lease_to_specific_storage, revoked_at}
use fs.Central.Updates.Begin.{create_lease, lease_file, file_for_update, begin_update_on}
use fs.Central.Updates.Commit.{map_expired, commit_tx, commit_update, storage_of_volume}
use fs.Central.Updates.Commit.Done.{IsCommitted, commit_tx-IsCommitted}

volume_state :
    (request : CommitUpdateRequest) (now : ℕ) (db : CentralDb)
    → (map_expired request.lease_id request.file_id
        (active_update_lease_volume request.lease_id request.file_id now)
        db).1
      ≡ db
unfolding active_update_lease_volume find_active
volume_state request now db = grind (
  arith,
  column-cases request.lease_id "lease_id",
  column-cases request.file_id "file_id",
  column-cases now "now_ms",
  Option-cases (find (is_active request.lease_id request.file_id now) db.update_leases),
)

-- A commit fails and leaves the tables as they are, or it succeeds: then the lease was the active
-- one in the table with the id and the file of the request, when the second transaction read the
-- clock; lease and file had the size that the client knew; every bundle was stored with the length
-- that was sent, and the lengths add up to the new size, which the file has in the table from then
-- on and in the answer; and no lease has the id any more.
pub commit_update-outcome :
    (request : CommitUpdateRequest) (now_volume now now_load : ℕ) (s : CentralServer)
    → ((e : Fs0Error) × ((commit_update request now_volume now now_load s).0 ≡ err e)
        × ((commit_update request now_volume now now_load s).1.db ≡ s.db))
      ⊎ ((r : FileRecord) × (revoked : Option ℕ) × ((commit_update request now_volume now now_load
              s).0
            ≡ ok (r, revoked))
          × IsCommitted request now_load s.db
              (commit_update request now_volume now now_load s).1.db
              r)
unfolding commit_update on_central_tx
commit_update-outcome request now_volume now now_load s =
    let same = volume_state request now_volume s.db in
    elim (Result-cases
      (map_expired request.lease_id request.file_id
        (active_update_lease_volume request.lease_id request.file_id now_volume) s.db).0) [
          | inr (e, p) ↦ inl (e, ground (arith, p), ground (arith, p))
          | inl (v, p) ↦ elim (Result-cases (commit_tx request now now_load (tx_of s)).0) [
            | inr (e, q) ↦ inl (e, ground (arith, p, q, same), ground (arith, p, q, same))
            | inl (r, q) ↦
                let done = commit_tx-IsCommitted request now now_load (tx_of s) r q in
                inr (
                  r,
                  revoked_at (storage_of_volume v s) s,
                  ground (arith, p, q, same),
                  subst (λ (db : CentralDb). IsCommitted request now_load s.db db r)
                      (sym (after_commit r v p q)) done,
                )
          ]
        ]
  where
    after_commit :
        (r : FileRecord) (v : ℕ)
        → (map_expired request.lease_id request.file_id
            (active_update_lease_volume request.lease_id request.file_id now_volume)
            s.db).0
          ≡ ok v
        → (commit_tx request now now_load (tx_of s)).0 ≡ ok r
        → (commit_update request now_volume now now_load s).1.db
          ≡ (commit_tx request now now_load (tx_of s)).1.inner
    after_commit r v p q = ground (arith, p, q, volume_state request now_volume s.db)

delete_update_lease-outcome :
    (id : ℕ) (db : CentralDb)
    → ((delete_update_lease id db
          ≡ (ok tt, record db { update_leases = delete (has_lease_id id) db.update_leases }))
        × (find (has_lease_id id) (delete_update_lease id db).1.update_leases ≡ none))
      ⊎ (i64_mod ≤ id)
unfolding delete_update_lease
delete_update_lease-outcome id db = elim (column_roundtrip id "lease_id") [
  | inr (h, p) ↦ inr h
  | inl (h, p, q) ↦
      inl (ground (arith, p), ground (arith, p, find-delete (has_lease_id id) db.update_leases))
]

-- A lease that was created is in the table, on the volume and for the time of an update.
abbrev pub IsLeased : UpdateLease → ℕ → ℕ → CentralDb → Type 0
IsLeased lease volume_id now db =
    IsHeld lease db
    × (lease.volume_id ≡ volume_id)
    × (lease.expires_at_ms ≡ now + update_lease_ttl_ms)

lease_file-IsLeased :
    (request : BeginUpdateRequest) (volume_id now : ℕ) (file : FileRow) (base_size : ℕ)
    (db : CentralDb) (lease : UpdateLease)
    → (lease_file request volume_id now file base_size db).0 ≡ ok lease
    → IsLeased lease volume_id now (lease_file request volume_id now file base_size db).1
unfolding lease_file
lease_file-IsLeased request volume_id now file base_size db lease h =
    let (u, p, e) = bind_sound (delete_expired_update_leases now) _ db lease h in
    let db1 = (delete_expired_update_leases now db).1 in
    let (leased, q, f) =
      bind_sound (file_has_active_update_lease file.file_id) _ db1 lease (rw e at h) in
    let db2 = (file_has_active_update_lease file.file_id db1).1 in
    let g = reject-ok leased (already_exists request.path) _ db2 lease (rw f at (rw e at h)) in
    rw (e, f, g) (create_update_lease-IsHeld _ db2 lease (rw g at (rw f at (rw e at h))))

create_lease-IsLeased :
    (request : BeginUpdateRequest) (volume_id now : ℕ) (tx : CentralTx) (lease : UpdateLease)
    → (create_lease request volume_id now tx).0 ≡ ok lease
    → IsLeased lease volume_id now (create_lease request volume_id now tx).1.inner
unfolding create_lease
create_lease-IsLeased request volume_id now tx lease h =
    let ((file, base_size), p, e) = bind_sound (file_for_update request now) _ tx lease h in
    rw e (
      lease_file-IsLeased request volume_id now file base_size
        (file_for_update request now tx).1.inner lease (rw e at h))

module _ (rpc : ℕ → GrantUploadLeaseRequest → Fs0Result GrantReply) (request : BeginUpdateRequest)
    (now storage_id volume_id : ℕ) (s : CentralServer) where
  -- The server after the transaction that creates the lease.
  abbrev pub leased : CentralServer
  leased = (on_central_tx (create_lease request volume_id now) s).1

  -- When no lease can be created, the client gets that error and the tables are as before.
  -- Otherwise the lease is in the table as the one of its file, on the volume chosen and for the time
  -- of an update; and when the storage server grants it, the client gets it; when the storage
  -- server refuses, is gone or cannot be reached, the client gets that error and no lease has
  -- the id any more, if the id fits its column.
  pub begin_update_on-outcome :
      ((e : Fs0Error) × ((create_lease request volume_id now (tx_of s)).0 ≡ err e)
        × ((begin_update_on rpc request now (storage_id, volume_id) s).0 ≡ err e)
        × ((begin_update_on rpc request now (storage_id, volume_id) s).1.db ≡ s.db))
      ⊎ ((lease : UpdateLease) × ((create_lease request volume_id now (tx_of s)).0 ≡ ok lease)
          × IsLeased lease volume_id now leased.db
          × (((grant_upload_lease_to_specific_storage rpc storage_id lease leased ≡ ok tt)
                × (begin_update_on rpc request now (storage_id, volume_id) s ≡ (ok lease, leased)))
              ⊎ ((e : Fs0Error) × (grant_upload_lease_to_specific_storage rpc storage_id lease
                      leased
                    ≡ err e)
                  × ((((begin_update_on rpc request now (storage_id, volume_id) s).0 ≡ err e)
                        × (find
                              (has_lease_id lease.lease_id)
                              (begin_update_on rpc request now
                                (storage_id, volume_id)
                                s).1.db.update_leases
                            ≡ none))
                      ⊎ (i64_mod ≤ lease.lease_id)))))
  unfolding begin_update_on on_central_tx
  begin_update_on-outcome = elim (Result-cases (create_lease request volume_id now (tx_of s)).0) [
    | inr (e, p) ↦ inl (e, p, ground (arith, p), ground (arith, p))
    | inl (lease, p) ↦
        let held = create_lease-IsLeased request volume_id now (tx_of s) lease p in
        let same : leased.db ≡ (create_lease request volume_id now (tx_of s)).1.inner =
          ground (arith, p) in
        inr (
          lease,
          p,
          subst (IsLeased lease volume_id now) (sym same) held,
          elim (Result-cases (grant_upload_lease_to_specific_storage rpc storage_id lease leased)) [
            | inl (u, q) ↦ inl (q, ground (arith, p, q))
            | inr (e, q) ↦ inr (
              e,
              q,
              elim (delete_update_lease-outcome lease.lease_id leased.db) [
                | inr h ↦ inr h
                | inl (d, gone) ↦ inl (ground (arith, p, q, d), ground (arith, p, q, d, gone))
              ],
            )
          ],
        )
  ]
