-- ===== src/Storage/Server/Uploads.antt =====
-- What an upload needs, and what it keeps (`upload_chunk` of request_handlers/data.rs).
use fs.Prelude.{
  ℕ, ◌<◌, ◌≡◌, refl, ◌∙◌, ◌⊎◌, inl, inr, Bool, Bool-cases, Option-cases, true, false, not, none,
  some, List, [], ◌∷◌, ◌++◌, any, length, num_eq, All, arith,
}
use fs.Prelude.Rows.{
  find, delete, update, find-All, update-All, delete-drops, find-append_none, find-delete,
  find-delete-none, delete-append_last,
}
use fs.Core.Error.{Message, ok, err, hash_mismatch, unauthorized}
use fs.Core.Exec.{Exec, bind-keeps, reject-keeps, reject, lift}
use fs.Core.Compression.{zstd_decompress}
use fs.Core.Hash.{hash_eq, blake3_hash}
use fs.Core.Protocol.{GrantUploadLeaseRequest, UploadChunkRequest}
use fs.Volume.Disk.{Os}
use fs.Volume.Store.{Volume, put_chunk}
use fs.Volume.Store.Integrity.{IsIntact, put_chunk-IsIntact}
use fs.Storage.Server.{
  StorageServer, MountedVolume, UploadLeaseState, has_mounted_id, has_upload_lease_id, is_over,
  covers, on_volume, authorize, check_if, check_content, store_upload, upload_chunk,
  grant_upload_lease, revoke_upload_lease,
}

-- The lease that a request names is known, has not expired, and is for its file and its volume.
abbrev pub IsLeased : ℕ → ℕ → ℕ → ℕ → StorageServer → Type 0
IsLeased lease_id file_id volume_id now s =
    (l : UploadLeaseState) × (find (has_upload_lease_id lease_id)
        (delete (is_over now) s.upload_leases)
      ≡ some l)
    × (now < l.expires_at_ms)
    × (l.file_id ≡ file_id)
    × (l.volume_id ≡ volume_id)

abbrev pub pruned : ℕ → StorageServer → StorageServer
pruned now s = record s { upload_leases = delete (is_over now) s.upload_leases }

authorize-cases :
    (lease file volume now : ℕ) (s : StorageServer)
    → ((authorize lease file volume now s ≡ (ok tt, pruned now s))
        × IsLeased lease file volume now s)
      ⊎ (authorize lease file volume now s ≡ (err unauthorized, pruned now s))
unfolding authorize
authorize-cases lease file volume now s =
    elim (Option-cases (find (has_upload_lease_id lease) (delete (is_over now) s.upload_leases))) [
      | inl p ↦ inr (ground (arith, p))
      | inr (l, p) ↦ elim (Bool-cases (covers file volume (some l))) [
        | inr q ↦ inr (ground (arith, p, q))
        | inl q ↦
            let live =
              find-All (λ x. is_over now x ≡ false) _ (delete (is_over now) s.upload_leases) l p
                (delete-drops (is_over now) s.upload_leases) in
            inl (
              ground (arith, p, q),
              (l, p, grind (arith, live), grind (arith, q), grind (arith, q)),
            )
      ]
    ]

-- Every volume of the server is intact.
unfoldable pub AreIntact : (List ℕ → List ℕ) → StorageServer → Type 0
AreIntact blake3 s = All (λ (m : MountedVolume). IsIntact blake3 m.volume) s.volumes

with_volume : ℕ → Volume → StorageServer → StorageServer
with_volume id v s = record s {
  volumes = update (has_mounted_id id) (λ e. record e { volume = v }) s.volumes;
}

on_volume-some :
    {A : Type 0} (id : ℕ) (m : Exec Volume A) (s : StorageServer) (e : MountedVolume)
    → find (has_mounted_id id) s.volumes ≡ some e
    → (on_volume id m s).1 ≡ with_volume id (m e.volume).1 s
unfolding on_volume with_volume
on_volume-some id m s e p = ground (arith, p)

on_volume-none :
    {A : Type 0} (id : ℕ) (m : Exec Volume A) (s : StorageServer)
    → find (has_mounted_id id) s.volumes ≡ none
    → (on_volume id m s).1 ≡ s
unfolding on_volume
on_volume-none id m s p = ground (arith, p)

on_volume-AreIntact :
    {A : Type 0} (blake3 : List ℕ → List ℕ) (id : ℕ) (m : Exec Volume A) (s : StorageServer)
    → ((v : Volume) → IsIntact blake3 v → IsIntact blake3 (m v).1)
    → AreIntact blake3 s
    → AreIntact blake3 (on_volume id m s).1
unfolding AreIntact with_volume
on_volume-AreIntact blake3 id m s k h = elim (Option-cases (find (has_mounted_id id) s.volumes)) [
  | inl p ↦ rw (on_volume-none id m s p) h
  | inr (e, p) ↦
      let whole =
        k e.volume (find-All (λ (x : MountedVolume). IsIntact blake3 x.volume) _ s.volumes e p h) in
      rw (on_volume-some id m s e p) (
        update-All (λ (x : MountedVolume). IsIntact blake3 x.volume) (has_mounted_id id)
          (λ x. record x { volume = (m e.volume).1 }) s.volumes (λ x y. whole) h)
]

module _ (os : Os) (blake3 : List ℕ → List ℕ) (decompress : List ℕ → ℕ → Message ⊎ List ℕ) where
  check_if-keeps :
      (b : Bool) (r : UploadChunkRequest) (s : StorageServer)
      → (check_if os blake3 decompress b r s).1 ≡ s
  unfolding check_if check_content
  check_if-keeps true r s =
      bind-keeps (λ t. t ≡ s) (lift (zstd_decompress decompress r.compressed_bytes r.raw_len)) _ s
        refl
        λ raw p.
          reject-keeps (λ t. t ≡ s) (not (num_eq (length raw) r.raw_len)) _ _ s refl
            λ q. keeps (not (hash_eq (blake3_hash blake3 raw) r.chunk_id))
    where
      keeps : (b : Bool) → (reject b (hash_mismatch 0) s).1 ≡ s
      keeps true = refl
      keeps false = refl
  check_if-keeps false r s = refl

  store_upload-AreIntact :
      (r : UploadChunkRequest) (later : ℕ) (s : StorageServer)
      → AreIntact blake3 s
      → AreIntact blake3 (store_upload os blake3 decompress r later s).1
  unfolding store_upload
  store_upload-AreIntact r later s h =
      let same = check_if-keeps s.check_hash_before_write r s in
      let whole : AreIntact blake3 (check_if os blake3 decompress s.check_hash_before_write r s).1 =
        rw same h in
      let put = put_chunk os blake3 r.chunk_id r.raw_len r.compressed_bytes later in
      let done =
        on_volume-AreIntact blake3 r.volume_id put
          (check_if os blake3 decompress s.check_hash_before_write r s).1
          (λ v k. put_chunk-IsIntact blake3 os r.chunk_id r.raw_len r.compressed_bytes later v k)
          whole in
      bind-keeps (AreIntact blake3) (check_if os blake3 decompress s.check_hash_before_write r) _ s
        whole
        λ u p.
          bind-keeps (AreIntact blake3) (on_volume r.volume_id put) _
            (check_if os blake3 decompress s.check_hash_before_write r s).1 done λ meta q. done

  -- Whatever an upload returns, the volumes stay intact; and unless the request names a lease that is
  -- known, has not expired, and is for its file and its volume, it fails and only the expired leases
  -- are gone.
  pub upload_chunk-AreIntact :
      (r : UploadChunkRequest) (now later : ℕ) (s : StorageServer)
      → AreIntact blake3 s
      → AreIntact blake3 (upload_chunk os blake3 decompress r now later s).1
        × (IsLeased r.lease_id r.file_id r.volume_id now s
            ⊎ (upload_chunk os blake3 decompress r now later s ≡ (err unauthorized, pruned now s)))
  unfolding upload_chunk AreIntact
  upload_chunk-AreIntact r now later s h =
      elim (authorize-cases r.lease_id r.file_id r.volume_id now s) [
        | inl (p, l) ↦ (rw p (store_upload-AreIntact r later (pruned now s) h), inl l)
        | inr p ↦ (rw p h, inr (rw p refl))
      ]

abbrev granted_lease : GrantUploadLeaseRequest → UploadLeaseState
granted_lease g = record {
  lease_id = g.lease_id;
  file_id = g.file_id;
  volume_id = g.volume_id;
  expires_at_ms = g.expires_at_ms;
}

found-granted :
    (g : GrantUploadLeaseRequest) (now : ℕ) (ls : List UploadLeaseState)
    → now < g.expires_at_ms
    → find (has_upload_lease_id g.lease_id) (
        delete (is_over now) (delete (has_upload_lease_id g.lease_id) ls ++ (granted_lease g ∷ [])))
      ≡ some (granted_lease g)
unfolding find
found-granted g now ls live =
    let others = delete (has_upload_lease_id g.lease_id) ls in
    let gone =
      find-delete-none (has_upload_lease_id g.lease_id) (is_over now) others
        (find-delete (has_upload_lease_id g.lease_id) ls) in
    rw (delete-append_last (is_over now) others (granted_lease g) (ground (arith, live))) (
      find-append_none (has_upload_lease_id g.lease_id) (delete (is_over now) others)
        (granted_lease g ∷ []) gone
      ∙ grind arith)

-- A lease that was granted covers its file and volume until it expires, and no longer when it has
-- been revoked.
pub grant_upload_lease-authorize :
    (g : GrantUploadLeaseRequest) (now : ℕ) (s : StorageServer)
    → any (has_mounted_id g.volume_id) s.volumes ≡ true
    → now < g.expires_at_ms
    → ((authorize g.lease_id g.file_id g.volume_id now (grant_upload_lease g s).1).0 ≡ ok tt)
      × ((authorize g.lease_id g.file_id g.volume_id now
            (revoke_upload_lease g.lease_id (grant_upload_lease g s).1).1).0
          ≡ err unauthorized)
unfolding authorize grant_upload_lease revoke_upload_lease
grant_upload_lease-authorize g now s known live =
    let gone = find-delete-none (has_upload_lease_id g.lease_id) (is_over now) _ (
      find-delete (has_upload_lease_id g.lease_id)
        (delete (has_upload_lease_id g.lease_id) s.upload_leases ++ (granted_lease g ∷ []))) in
    (grind (arith, known, found-granted g now s.upload_leases live), ground (arith, known, gone))
