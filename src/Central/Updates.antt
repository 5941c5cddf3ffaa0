-- ===== src/Central/Updates.antt =====
-- crates/fs0-central/src/request_handlers/update.rs: which volume an update goes to, and the answers
-- of a storage server. The comparison of the used share of a volume with
-- `UPDATE_VOLUME_USAGE_THRESHOLD`, which is done on floating point numbers, is a parameter.
pub mod Begin
pub mod Commit
pub mod Candidates
pub mod Outcomes
use fs.Prelude.{
  ℕ, ◌-◌, Bool, true, false, not, ◌&&◌, ◌||◌, Option, none, some, List, [], ◌∷◌, ltb, num_eq,
  bytes_eq, if◌then◌else◌,
}
use fs.Prelude.Rows.{find}
use fs.Core.Error.{Text, Fs0Error, Fs0Result, ok, err, lit, not_found, invalid_frame, num, Message}
use fs.Core.Protocol.{
  BeginUpdateRequest, GrantUploadLeaseRequest, StorageVolumeInfo, StoragePeerInfo, UpdateLease,
}
use fs.Central.Server.{CentralServer, has_storage_id}

-- What the storage server answers to a grant: the grant, an error or any other frame.
pub data GrantReply : Type 0 where
  granted : ℕ → GrantReply
  refused : Fs0Error → GrantReply
  unexpected : Message → GrantReply

abbrev pub fits_hint : Option ℕ → StorageVolumeInfo → Bool
fits_hint none v = true
fits_hint (some size) v = not (ltb (v.max_bytes - v.max_volume_offset) size)

abbrev pub is_preferred : Option Text → StorageVolumeInfo → Bool
is_preferred none v = false
is_preferred (some name) v = bytes_eq v.name name

-- The candidate so far, and whether the search has ended.
pub record Search : Type 0 where
  pub candidate : Option (ℕ × ℕ)
  pub ended : Bool

-- `candidate_volume.is_none()`
abbrev pub or_first : Option (ℕ × ℕ) → ℕ × ℕ → Option (ℕ × ℕ)
or_first none c = some c
or_first (some old) c = some old

module _ (over_threshold : ℕ → ℕ → Bool) (request : BeginUpdateRequest) where
  unfoldable pub is_usable : StorageVolumeInfo → Bool
  is_usable v =
      not (v.read_only || num_eq v.max_bytes 0)
      && not (over_threshold v.max_volume_offset v.max_bytes)
      && fits_hint request.update_size_hint v

  -- The inner loop, over the volumes of one storage server.
  unfoldable pub search_volumes : ℕ → Option (ℕ × ℕ) → List StorageVolumeInfo → Search
  unfolding is_usable
  search_volumes storage_id candidate [] = record { candidate = candidate; ended = false }
  search_volumes storage_id candidate (v ∷ vs) =
      let skipped = search_volumes storage_id candidate vs in
      let next = search_volumes storage_id (or_first candidate (storage_id, v.volume_id)) vs in
      if not (is_usable v)
      then skipped
      else if is_preferred request.prefer_volume_name v
      then record { candidate = some (storage_id, v.volume_id); ended = true }
      else next

  -- The outer loop, which the inner one can end.
  unfoldable pub search_storages : Option (ℕ × ℕ) → List StoragePeerInfo → Option (ℕ × ℕ)
  unfolding search_volumes
  search_storages candidate [] = candidate
  search_storages candidate (p ∷ ps) =
      let search = search_volumes p.storage_id candidate p.volumes in
      let rest = search_storages search.candidate ps in
      if search.ended then search.candidate else rest

-- `grant_upload_lease_to_specific_storage_to_specific_storage`, with the answer of the remote call as a parameter.
abbrev pub grant_request : UpdateLease → GrantUploadLeaseRequest
grant_request lease = record {
  lease_id = lease.lease_id;
  file_id = lease.file_id;
  volume_id = lease.volume_id;
  base_size = lease.base_size;
  expires_at_ms = lease.expires_at_ms;
  prefer_volume_name = lease.prefer_volume_name;
}

abbrev pub grant_outcome : ℕ → GrantReply → Fs0Result (Unit {0})
grant_outcome lease_id (refused e) = err e
grant_outcome lease_id (granted id) =
    if num_eq id lease_id
    then ok tt
    else err (invalid_frame (lit "unexpected grant upload lease response: " ∷ num id ∷ []))
grant_outcome lease_id (unexpected response) =
    err (invalid_frame (lit "unexpected grant upload lease response: " ∷ response))

-- `connection.rpc(...).await?`
abbrev pub reply_outcome : ℕ → Fs0Result GrantReply → Fs0Result (Unit {0})
reply_outcome lease_id (ok reply) = grant_outcome lease_id reply
reply_outcome lease_id (err e) = err e

unfoldable pub grant_upload_lease_to_specific_storage :
    (ℕ → GrantUploadLeaseRequest → Fs0Result GrantReply)
    → ℕ
    → UpdateLease
    → CentralServer
    → Fs0Result (Unit {0})
grant_upload_lease_to_specific_storage rpc storage_id lease s =
    elim (find (has_storage_id storage_id) s.storages) [
      | none ↦ err not_found
      | some storage ↦ reply_outcome lease.lease_id (rpc storage_id (grant_request lease))
    ]

-- The storage server that `revoke_storage_upload_lease` sends its request to; the answer is ignored.
abbrev pub revoked_at : Option ℕ → CentralServer → Option ℕ
revoked_at none s = none
revoked_at (some storage_id) s = elim (find (has_storage_id storage_id) s.storages) [
  | none ↦ none
  | some storage ↦ some storage_id
]
