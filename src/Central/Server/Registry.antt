-- ===== src/Central/Server/Registry.antt =====
-- The registry of server.rs: each volume of a registered storage server is mounted by that server.
use fs.Prelude.{
  ℕ, ◌+◌, ◌%◌, ◌<◌, ◌≡◌, refl, Bool, true, false, Bool-cases, not, inl, inr, some, List, [], ◌∷◌,
  ◌++◌, any, num_eq, num_eq_iff, if◌then◌else◌, All, All-append, All-imp, All-imp_both, arith,
}
use fs.Prelude.Rows.{
  find, delete, find-delete, find-delete_other, find-delete_kept, find-append_none,
  find-append_last, delete-drops, any-found, delete-All,
}
use fs.Core.Constants.{u64_mod}
use fs.Core.Error.{Text, ok, Result-cases, volume_already_mounted, unauthorized}
use fs.Core.Exec.{reject-keeps, bind-keeps}
use fs.Central.Types.{CentralDb}
use fs.Core.Protocol.{StorageVolumeInfo, StoragePeerInfo}
use fs.Central.Server.{
  CentralServer, OnlineVolume, has_storage_id, is_online_volume, is_mounted_by, is_mounted,
  mount_all, claim_volumes, insert_storage, mount_storage, register_storage, unregister_storage,
  token_allowed, on_tx, enter_storage, register_volumes, next_id,
}

abbrev pub mounted_at : ℕ → ℕ → OnlineVolume
mounted_at storage_id volume_id = record { volume_id = volume_id; storage_id = storage_id }

unfoldable pub IsMounted : List OnlineVolume → ℕ → StorageVolumeInfo → Type 0
IsMounted online storage_id v =
    find (is_online_volume v.volume_id) online ≡ some (mounted_at storage_id v.volume_id)

unfoldable pub IsPeer : ℕ → List OnlineVolume → StoragePeerInfo → Type 0
unfolding IsMounted
IsPeer next online p = (p.storage_id < next) × All (IsMounted online p.storage_id) p.volumes

-- The ids of the registered servers have been given out, and each of their volumes is looked up as
-- mounted by them, so that no two of them have a volume in common.
unfoldable pub IsRegistry : CentralServer → Type 0
unfolding IsPeer
IsRegistry s = All (IsPeer s.next_id s.online_volumes) s.storages

abbrev names_volume : ℕ → StorageVolumeInfo → Bool
names_volume id v = num_eq v.volume_id id

find-mount_one :
    (sid id u : ℕ) (online : List OnlineVolume)
    → find (is_online_volume u) (delete (is_online_volume id) online ++ (mounted_at sid id ∷ []))
      ≡ (if num_eq id u then some (mounted_at sid u) else find (is_online_volume u) online)
unfolding find
find-mount_one sid id u online = elim (Bool-cases (num_eq id u)) [
  | inl p ↦
      let q = find-delete (is_online_volume id) online in
      let e = (num_eq_iff id u).0 p in
      grind (
        arith,
        p,
        e,
        find-append_none (is_online_volume id) (delete (is_online_volume id) online)
            (mounted_at sid id ∷ []) q,
      )
  | inr p ↦
      let q =
        find-delete_other (is_online_volume u) (is_online_volume id) online
          (λ o h. grind (arith, p, h)) in
      ground (
        arith,
        p,
        q,
        find-append_last (is_online_volume u) (delete (is_online_volume id) online)
            (mounted_at sid id) p,
      )
]

find-mount_all :
    (sid u : ℕ) (vs : List StorageVolumeInfo) (online : List OnlineVolume)
    → find (is_online_volume u) (mount_all sid vs online) ≡ (
        if any (names_volume u) vs
        then some (mounted_at sid u)
        else find (is_online_volume u) online)
unfolding mount_all
find-mount_all sid u [] online = refl
find-mount_all sid u (v ∷ vs) online = ground (
  arith,
  find-mount_all sid u vs
      (delete (is_online_volume v.volume_id) online ++ (mounted_at sid v.volume_id ∷ [])),
  find-mount_one sid v.volume_id u online,
)

names_volume-unmounted :
    (online : List OnlineVolume) (vs : List StorageVolumeInfo) (u : ℕ) (o : OnlineVolume)
    → any (is_mounted online) vs ≡ false
    → find (is_online_volume u) online ≡ some o
    → any (names_volume u) vs ≡ false
names_volume-unmounted online [] u o h e = refl
names_volume-unmounted online (v ∷ vs) u o h e =
    ground
      (arith, h, names_volume-unmounted online vs u o, any-found (is_online_volume u) online o e)

any_self : (vs : List StorageVolumeInfo) → All (λ v. any (names_volume v.volume_id) vs ≡ true) vs
any_self [] = tt
any_self (v ∷ vs) = (
  grind arith,
  All-imp (λ w. any (names_volume w.volume_id) vs ≡ true)
      (λ w. any (names_volume w.volume_id) (v ∷ vs) ≡ true) vs (λ w h. ground (arith, h))
      (any_self vs),
)

-- Mounting a server whose id is new keeps what the registry says of one that is there.
mount-IsPeer :
    (next : ℕ) (online : List OnlineVolume) (peer q : StoragePeerInfo)
    → any (is_mounted online) peer.volumes ≡ false
    → IsPeer next online q
    → IsPeer next (mount_all peer.storage_id peer.volumes online) q
unfolding IsPeer IsMounted
mount-IsPeer next online peer q free h = (
  h.0,
  All-imp (IsMounted online q.storage_id)
      (IsMounted (mount_all peer.storage_id peer.volumes online) q.storage_id) q.volumes
      (λ v m. ground (
        arith,
        find-mount_all peer.storage_id v.volume_id peer.volumes online,
        m,
        names_volume-unmounted online peer.volumes v.volume_id _ free m,
      ))
      h.1,
)

mounted-IsPeer :
    (next : ℕ) (online : List OnlineVolume) (peer : StoragePeerInfo)
    → peer.storage_id < next
    → IsPeer next (mount_all peer.storage_id peer.volumes online) peer
unfolding IsPeer IsMounted
mounted-IsPeer next online peer h = (
  h,
  All-imp (λ v. any (names_volume v.volume_id) peer.volumes ≡ true)
      (IsMounted (mount_all peer.storage_id peer.volumes online) peer.storage_id) peer.volumes
      (λ v m. ground (arith, find-mount_all peer.storage_id v.volume_id peer.volumes online, m))
      (any_self peer.volumes),
)

-- Between the two critical sections, the servers that are there keep their volumes.
claim_volumes-IsRegistry :
    (peer : StoragePeerInfo) (s : CentralServer)
    → IsRegistry s
    → IsRegistry (claim_volumes peer s).1
unfolding claim_volumes IsRegistry
claim_volumes-IsRegistry peer s r =
    reject-keeps IsRegistry (any (is_mounted s.online_volumes) peer.volumes) volume_already_mounted
      _ s r (λ free. All-imp _ _ _ (λ q k. mount-IsPeer s.next_id s.online_volumes peer q free k) r)

claim_volumes-mounted :
    (peer : StoragePeerInfo) (s : CentralServer)
    → (claim_volumes peer s).0 ≡ ok tt
    → claim_volumes peer s ≡ (
      ok tt,
      record s { online_volumes = mount_all peer.storage_id peer.volumes s.online_volumes },
    )
unfolding claim_volumes
claim_volumes-mounted peer s h =
    elim (Bool-cases (any (is_mounted s.online_volumes) peer.volumes)) [
      | inl p ↦ absurd (ground (arith, p, h))
      | inr p ↦ ground (arith, p)
    ]

insert_storage-IsRegistry :
    (peer : StoragePeerInfo) (s : CentralServer)
    → IsPeer s.next_id s.online_volumes peer
    → IsRegistry s
    → IsRegistry (insert_storage peer s).1
unfolding insert_storage IsRegistry
insert_storage-IsRegistry peer s h r =
    All-append _ (delete (has_storage_id peer.storage_id) s.storages) (peer ∷ [])
      (delete-All _ _ s.storages r) (h, tt)

mount_storage-IsRegistry :
    (peer : StoragePeerInfo) (s : CentralServer)
    → peer.storage_id < s.next_id
    → IsRegistry s
    → IsRegistry (mount_storage peer s).1
unfolding mount_storage
mount_storage-IsRegistry peer s h r =
    let claimed = claim_volumes-IsRegistry peer s r in
    bind-keeps IsRegistry (claim_volumes peer) (λ _. insert_storage peer) s claimed
      (λ u p.
        let e = claim_volumes-mounted peer s p in
        insert_storage-IsRegistry peer (claim_volumes peer s).1
          (rw e (mounted-IsPeer s.next_id s.online_volumes peer h)) claimed)

-- When a storage server is gone, the volumes of the others are mounted as before, and nothing is
-- mounted by it.
pub unregister_storage-IsRegistry :
    (sid : ℕ) (s : CentralServer)
    → IsRegistry s
    → IsRegistry (unregister_storage sid s).1
      × All (λ o. is_mounted_by sid o ≡ false) (unregister_storage sid s).1.online_volumes
      × All (λ p. has_storage_id sid p ≡ false) (unregister_storage sid s).1.storages
unfolding unregister_storage IsRegistry IsPeer IsMounted
unregister_storage-IsRegistry sid s r = (
  All-imp_both _ _ _ (delete (has_storage_id sid) s.storages)
      (λ p k e. (
        k.0,
        All-imp _ _ p.volumes
            (λ v m.
              find-delete_kept (is_online_volume v.volume_id) (is_mounted_by sid) s.online_volumes _
                m e)
            k.1,
      ))
      (delete-All (IsPeer s.next_id s.online_volumes) (has_storage_id sid) s.storages r)
      (delete-drops (has_storage_id sid) s.storages),
  delete-drops (is_mounted_by sid) s.online_volumes,
  delete-drops (has_storage_id sid) s.storages,
)

-- The state in which `mount_storage` runs.
advanced : CentralDb → CentralServer → CentralServer
advanced db s = record s { next_id = (s.next_id + 1) % u64_mod; db = db }

advanced-IsRegistry :
    (db : CentralDb) (s : CentralServer)
    → s.next_id + 1 < u64_mod
    → IsRegistry s
    → (s.next_id < (advanced db s).next_id) × IsRegistry (advanced db s)
unfolding IsRegistry advanced IsPeer
advanced-IsRegistry db s h r =
    (omega (arith, h), All-imp _ _ s.storages (λ p k. (omega (arith, h, k.0), k.1)) r)

numbered : ℕ → Text → List StorageVolumeInfo → List ℕ → StoragePeerInfo
numbered id name volumes endpoint = record {
  storage_id = id;
  name = name;
  volumes = volumes;
  iroh_endpoint = endpoint;
}

-- What the last step, which reads the servers, leaves.
enter_storage-state :
    (name : Text) (volumes : List StorageVolumeInfo) (endpoint : List ℕ) (s : CentralServer)
    → (enter_storage name volumes endpoint s).1
      ≡ (mount_storage (numbered s.next_id name volumes endpoint) (advanced s.db s)).1
unfolding enter_storage next_id numbered advanced
enter_storage-state name volumes endpoint s =
    elim (Result-cases
      (mount_storage (numbered s.next_id name volumes endpoint) (advanced s.db s)).0) [
        | inl (u, p) ↦ ground (arith, p)
        | inr (e, p) ↦ ground (arith, p)
      ]

enter_storage-IsRegistry :
    (name : Text) (volumes : List StorageVolumeInfo) (endpoint : List ℕ) (s : CentralServer)
    → s.next_id + 1 < u64_mod
    → IsRegistry s
    → IsRegistry (enter_storage name volumes endpoint s).1
enter_storage-IsRegistry name volumes endpoint s h r =
    let (lt, k) = advanced-IsRegistry s.db s h r in
    rw (enter_storage-state name volumes endpoint s) (
      mount_storage-IsRegistry (numbered s.next_id name volumes endpoint) (advanced s.db s)
        (unfold numbered in lt) k)

-- Registering a storage server keeps the registry, whatever the answer is.
pub register_storage-IsRegistry :
    (name token : Text) (volumes : List StorageVolumeInfo) (endpoint : List ℕ) (s : CentralServer)
    → s.next_id + 1 < u64_mod
    → IsRegistry s
    → IsRegistry (register_storage name token volumes endpoint s).1
unfolding register_storage IsRegistry
register_storage-IsRegistry name token volumes endpoint s h r =
    reject-keeps IsRegistry (not (token_allowed token s)) unauthorized _ s r (λ allowed.
      bind-keeps IsRegistry (on_tx (register_volumes volumes))
        (λ vs. enter_storage name vs endpoint) s r
        (λ vs p.
          enter_storage-IsRegistry name vs endpoint (on_tx (register_volumes volumes) s).1 h r))
