-- ===== src/Central/StorageRequests/Offsets.antt =====
-- The offset of a volume that a storage server reports (request_handlers/storage.rs): the row of the
-- volume and the entry of the server.
use fs.Prelude.{
  ℕ, ◌≡◌, ◌≢◌, refl, ◌∙◌, inl, inr, Bool, Bool-cases, Option-cases, true, false, none, some, List,
  [], ◌∷◌, any, arith, num_eq_iff,
}
use fs.Prelude.Rows.{find, update, any-found, find-where}
use fs.Core.Error.{ok, Result-cases}
use fs.Core.Convert.{column-cases}
use fs.Core.Protocol.{StorageVolumeInfo, StoragePeerInfo}
use fs.Central.Types.{CentralDb, VolumeRow}
use fs.Central.Volumes.{
  get_volume, has_volume_id, row_to_storage_volume_info, set_offset, update_volume_offset,
}
use fs.Central.Server.{CentralServer, has_storage_id}
use fs.Central.StorageRequests.{has_info_id, refresh_first, update_storage_volume_offset}

any-none {ℓ} : {A : Type ℓ} (p : A → Bool) (xs : List A) → find p xs ≡ none → any p xs ≡ false
unfolding find
any-none p [] h = refl
any-none p (x ∷ xs) h = ground (arith, h, any-none p xs)

module _ {ℓ} {A : Type ℓ} (p q : A → Bool) (f : A → A) where
  find-update :
      (xs : List A) (a : A)
      → ((x : A) → p (f x) ≡ p x)
      → find p xs ≡ some a
      → find p (update p f xs) ≡ some (f a)
  unfolding find update
  find-update [] a k h = absurd (ground (arith, h))
  find-update (x ∷ xs) a k h = ground (arith, h, k x, find-update xs a k)

  find-update_other :
      (xs : List A)
      → ((x : A) → q x ≡ true → p x ≡ false)
      → ((x : A) → p (f x) ≡ p x)
      → find p (update q f xs) ≡ find p xs
  unfolding find update
  find-update_other [] h k = refl
  find-update_other (x ∷ xs) h k = ground (arith, h x, k x, find-update_other xs h k)

abbrev with_row : StorageVolumeInfo → StorageVolumeInfo → StorageVolumeInfo
with_row row v = record v {
  name = row.name;
  max_bytes = row.max_bytes;
  max_volume_offset = row.max_volume_offset;
}

find-refresh_first :
    (row : StorageVolumeInfo) (vs : List StorageVolumeInfo) (v : StorageVolumeInfo)
    → find (has_info_id row.volume_id) vs ≡ some v
    → find (has_info_id row.volume_id) (refresh_first row vs) ≡ some (with_row row v)
unfolding find refresh_first
find-refresh_first row [] v h = absurd (ground (arith, h))
find-refresh_first row (w ∷ vs) v h = ground (arith, h, find-refresh_first row vs v)

find-refresh_other :
    (row : StorageVolumeInfo) (u : ℕ) (vs : List StorageVolumeInfo)
    → u ≢ row.volume_id
    → find (has_info_id u) (refresh_first row vs) ≡ find (has_info_id u) vs
unfolding find refresh_first
find-refresh_other row u [] h = refl
find-refresh_other row u (v ∷ vs) h = grind (arith, h, find-refresh_other row u vs h)

-- What a change of the offset that succeeded did to the table.
update_volume_offset-stored :
    (vid offset : ℕ) (db : CentralDb) (info : StorageVolumeInfo)
    → (update_volume_offset vid offset db).0 ≡ ok info
    → (row : VolumeRow) × (find (has_volume_id vid) db.volumes ≡ some row)
      × (update_volume_offset vid offset db ≡ (ok info, set_offset vid offset db))
      × (row_to_storage_volume_info (record row { max_volume_offset = offset }) ≡ info)
unfolding update_volume_offset get_volume
update_volume_offset-stored vid offset db info h = elim (column-cases vid "volume_id") [
  | inr (e, p) ↦ absurd (ground (arith, p, h))
  | inl p ↦ elim (column-cases offset "max_volume_offset") [
    | inr (e, q) ↦ absurd (ground (arith, p, q, h))
    | inl q ↦ elim (Bool-cases (any (has_volume_id vid) db.volumes)) [
      | inr r ↦ absurd (ground (arith, p, q, r, h))
      | inl r ↦ elim (Option-cases (find (has_volume_id vid) db.volumes)) [
        | inl u ↦ absurd (ground (arith, r, any-none (has_volume_id vid) db.volumes u))
        | inr (row, u) ↦
            let found =
              find-update (has_volume_id vid) (has_volume_id vid)
                (λ v. record v { max_volume_offset = offset }) db.volumes row (λ v. refl) u in
            let e : row_to_storage_volume_info (record row { max_volume_offset = offset }) ≡ info =
              ground (arith, p, q, r, found, h) in
            (row, u, ground (arith, p, q, r, found, e), e)
      ]
    ]
  ]
]

-- The row of the volume has the new offset and is otherwise as before; the server's entry for the
-- volume has the name, the size and the offset of the row; other rows, other servers, and other
-- volumes of the server are found as before.
pub record IsRefreshed (sid vid offset other u : ℕ) (before after : CentralServer) : Type 0 where
  pub row : VolumeRow
  pub row_before : find (has_volume_id vid) before.db.volumes ≡ some row
  pub row_after :
      find (has_volume_id vid) after.db.volumes ≡ some (record row { max_volume_offset = offset })
  pub old : StoragePeerInfo
  pub new : StoragePeerInfo
  pub info : StorageVolumeInfo
  pub peer_before : find (has_storage_id sid) before.storages ≡ some old
  pub peer_after : find (has_storage_id sid) after.storages ≡ some new
  pub info_after : find (has_info_id vid) new.volumes ≡ some info
  pub named : info.name ≡ row.name
  pub sized : info.max_bytes ≡ row.max_bytes
  pub moved : info.max_volume_offset ≡ offset
  pub rows_kept : find (has_volume_id u) after.db.volumes ≡ find (has_volume_id u) before.db.volumes
  pub peers_kept :
      find (has_storage_id other) after.storages ≡ find (has_storage_id other) before.storages
  pub infos_kept : find (has_info_id u) new.volumes ≡ find (has_info_id u) old.volumes

abbrev info_of : VolumeRow → ℕ → StorageVolumeInfo
info_of row offset = row_to_storage_volume_info (record row { max_volume_offset = offset })

refresh : StorageVolumeInfo → StoragePeerInfo → StoragePeerInfo
refresh info p = record p { volumes = refresh_first info p.volumes }

refreshed : ℕ → ℕ → ℕ → StorageVolumeInfo → CentralServer → CentralServer
refreshed sid vid offset info s = record s {
  db = set_offset vid offset s.db;
  storages = update (has_storage_id sid) (refresh info) s.storages;
}

refreshed-IsRefreshed :
    (sid vid offset other u : ℕ) (s : CentralServer) (row : VolumeRow) (peer : StoragePeerInfo)
    (v : StorageVolumeInfo)
    → other ≢ sid
    → u ≢ vid
    → find (has_volume_id vid) s.db.volumes ≡ some row
    → row.volume_id ≡ vid
    → find (has_storage_id sid) s.storages ≡ some peer
    → find (has_info_id vid) peer.volumes ≡ some v
    → IsRefreshed sid vid offset other u s (refreshed sid vid offset (info_of row offset) s)
unfolding refreshed refresh
refreshed-IsRefreshed sid vid offset other u s row peer v ho hu found id q r = record {
  row = row;
  row_before = found;
  row_after =
      find-update (has_volume_id vid) (has_volume_id vid)
        (λ w. record w { max_volume_offset = offset }) s.db.volumes row (λ w. refl) found;
  old = peer;
  new = refresh (info_of row offset) peer;
  info = with_row (info_of row offset) v;
  peer_before = q;
  peer_after =
      find-update (has_storage_id sid) (has_storage_id sid) (refresh (info_of row offset))
        s.storages peer (λ p. refl) q;
  info_after = rw (← id) (find-refresh_first (info_of row offset) peer.volumes v (rw id r));
  named = refl;
  sized = refl;
  moved = refl;
  rows_kept =
      find-update_other (has_volume_id u) (has_volume_id vid)
        (λ w. record w { max_volume_offset = offset }) s.db.volumes (λ w h. grind (arith, h, hu))
        (λ w. refl);
  peers_kept =
      find-update_other (has_storage_id other) (has_storage_id sid) (refresh (info_of row offset))
        s.storages (λ p h. grind (arith, h, ho)) (λ p. refl);
  infos_kept = find-refresh_other (info_of row offset) u peer.volumes (λ e. hu (e ∙ id));
}

-- When `update_storage_volume_offset` succeeds, the row of the volume has the new offset and is
-- otherwise as before, and the entry of the storage server for the volume has the name, the size and
-- the offset of the row; the rows of other volumes, the other storage servers, and the
-- server's entries for other volumes are as before.
pub update_storage_volume_offset-IsRefreshed :
    (sid vid offset other u : ℕ) (s : CentralServer)
    → other ≢ sid
    → u ≢ vid
    → (update_storage_volume_offset sid vid offset s).0 ≡ ok tt
    → IsRefreshed sid vid offset other u s (update_storage_volume_offset sid vid offset s).1
unfolding update_storage_volume_offset
update_storage_volume_offset-IsRefreshed sid vid offset other u s ho hu h =
    elim (Result-cases (update_volume_offset vid offset s.db).0) [
      | inr (e, p) ↦ absurd (ground (arith, p, h))
      | inl (info, p) ↦
          let (row, found, stored, same) = update_volume_offset-stored vid offset s.db info p in
          elim (Option-cases (find (has_storage_id sid) s.storages)) [
            | inl q ↦ absurd (ground (arith, stored, q, h))
            | inr (peer, q) ↦ elim (Option-cases (find (has_info_id vid) peer.volumes)) [
              | inl r ↦
                  absurd (ground (arith, stored, q, any-none (has_info_id vid) peer.volumes r, h))
              | inr (v, r) ↦
                  let entered : any (has_info_id vid) peer.volumes ≡ true =
                    any-found (has_info_id vid) peer.volumes v r in
                  let whole : update_storage_volume_offset sid vid offset s
                      ≡ (ok tt, refreshed sid vid offset info s) =
                    unfold refreshed refresh in ground (arith, stored, q, entered) in
                  let id : row.volume_id ≡ vid =
                    (num_eq_iff row.volume_id vid).0
                      (find-where (has_volume_id vid) s.db.volumes row found) in
                  rw (whole, ← same)
                    (refreshed-IsRefreshed sid vid offset other u s row peer v ho hu found id q r)
            ]
          ]
    ]
