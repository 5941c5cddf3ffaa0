-- ===== src/Examples/StorageCases.antt =====
-- The theorems on the storage server, on one with a volume, and on idle data files.
use fs.Prelude.{
  ℕ, ◌+◌, ◌<◌, ◌≤◌, ◌≡◌, ◌⊎◌, inr, refl, true, false, none, some, List, [], ◌∷◌, arith,
}
use fs.Core.Error.{Message, ok, err, unauthorized}
use fs.Core.Constants.{volume_data_file_idle_ttl_ms}
use fs.Core.Protocol.{GrantUploadLeaseRequest, UploadChunkRequest}
use fs.Volume.DataFiles.{DataFileSlot, get_slot, close_idle}
use fs.Volume.DataFiles.Idle.{close_idle-cases}
use fs.Storage.Server.{
  StorageServer, authorize, grant_upload_lease, revoke_upload_lease, upload_chunk,
}
use fs.Storage.Server.Uploads.{
  AreIntact, IsLeased, pruned, upload_chunk-AreIntact, grant_upload_lease-authorize,
}
use fs.Examples.Values.{byte_os, toy_hash, id_of, two_files, two_files-IsIntact}

abbrev server : StorageServer
server = record {
  check_hash_before_write = true;
  volumes = record { volume_id = 1; volume = two_files } ∷ [];
  upload_leases = record { lease_id = 4; file_id = 2; volume_id = 1; expires_at_ms = 100 } ∷ [];
}

server-AreIntact : AreIntact toy_hash server
unfolding AreIntact
server-AreIntact = (two_files-IsIntact, tt)

-- Bytes that are not compressed.
abbrev no_compression : List ℕ → ℕ → Message ⊎ List ℕ
no_compression bytes n = inr bytes

abbrev upload : UploadChunkRequest
upload = record {
  volume_id = 1;
  lease_id = 4;
  file_id = 2;
  chunk_id = id_of (2 ∷ 8 ∷ 9 ∷ []);
  raw_len = 2;
  compressed_bytes = 8 ∷ 9 ∷ [];
}

upload_chunk-AreIntact_example :
    AreIntact toy_hash (upload_chunk byte_os toy_hash no_compression upload 50 51 server).1
    × (IsLeased 4 2 1 50 server
        ⊎ (upload_chunk byte_os toy_hash no_compression upload 50 51 server
            ≡ (err unauthorized, pruned 50 server)))
upload_chunk-AreIntact_example =
    upload_chunk-AreIntact byte_os toy_hash no_compression upload 50 51 server server-AreIntact

abbrev grant : GrantUploadLeaseRequest
grant = record {
  lease_id = 5;
  file_id = 3;
  volume_id = 1;
  base_size = 0;
  expires_at_ms = 200;
  prefer_volume_name = none;
}

grant_upload_lease-authorize_example :
    ((authorize 5 3 1 150 (grant_upload_lease grant server).1).0 ≡ ok tt)
    × ((authorize 5 3 1 150 (revoke_upload_lease 5 (grant_upload_lease grant server).1).1).0
        ≡ err unauthorized)
grant_upload_lease-authorize_example =
    grant_upload_lease-authorize grant 150 server refl (omega arith)

abbrev used_slot : DataFileSlot
used_slot = record { open_now = true; last_access_ms = 10 }

abbrev late : ℕ
late = 60011

close_idle-cases_example :
    ((get_slot (close_idle late (λ i. false) 0 (used_slot ∷ [])) 0 ≡ some used_slot)
      × ((used_slot.last_access_ms ≡ 0)
          ⊎ ((late ≤ used_slot.last_access_ms + volume_data_file_idle_ttl_ms) ⊎ (false ≡ true))))
    ⊎ ((get_slot (close_idle late (λ i. false) 0 (used_slot ∷ [])) 0
          ≡ some (record used_slot { open_now = false }))
        × (0 < used_slot.last_access_ms)
        × (used_slot.last_access_ms + volume_data_file_idle_ttl_ms < late)
        × (false ≡ false))
close_idle-cases_example = close_idle-cases late (λ i. false) (used_slot ∷ []) 0 used_slot refl
