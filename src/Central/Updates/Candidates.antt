-- ===== src/Central/Updates/Candidates.antt =====
-- The search of `begin_update` for a volume, against a description without loops.
use fs.Prelude.{
  ℕ, Bool, true, false, ◌≡◌, refl, Option, none, some, List, [], ◌∷◌, ◌++◌, arith, inl, inr,
  Option-cases, if◌then◌else◌,
}
use fs.Prelude.Rows.{find, find-append_some, find-append_none}
use fs.Core.Protocol.{BeginUpdateRequest, StorageVolumeInfo, StoragePeerInfo}
use fs.Central.Updates.{is_usable, is_preferred, or_first, search_volumes, search_storages}

-- A volume that can take the update, with the server that has it.
pub record Usable : Type 0 where
  pub target : ℕ × ℕ
  pub preferred : Bool

abbrev pub is_wanted : Usable → Bool
is_wanted u = u.preferred

-- The candidate that there was, or else the first of the list.
abbrev pub or_first_of : Option (ℕ × ℕ) → List Usable → Option (ℕ × ℕ)
or_first_of (some c) us = some c
or_first_of none [] = none
or_first_of none (u ∷ us) = some u.target

-- The first volume with the preferred name, and without one the first volume.
abbrev pub choice : Option (ℕ × ℕ) → List Usable → Option (ℕ × ℕ)
choice candidate us = elim (find is_wanted us) [
  | some u ↦ some u.target
  | none ↦ or_first_of candidate us
]

module _ (over_threshold : ℕ → ℕ → Bool) (request : BeginUpdateRequest) where
  unfoldable pub usable_in : ℕ → List StorageVolumeInfo → List Usable
  usable_in storage_id [] = []
  usable_in storage_id (v ∷ vs) =
      let rest = usable_in storage_id vs in
      if is_usable over_threshold request v
      then (record {
        target = (storage_id, v.volume_id);
        preferred = is_preferred request.prefer_volume_name v;
      })
        ∷ rest
      else rest

  -- The volumes that can take the update, in the order of the servers.
  unfoldable pub usable_volumes : List StoragePeerInfo → List Usable
  unfolding usable_in
  usable_volumes [] = []
  usable_volumes (p ∷ ps) = usable_in p.storage_id p.volumes ++ usable_volumes ps

  or_first_of-append :
      (c : Option (ℕ × ℕ)) (us vs : List Usable)
      → or_first_of c (us ++ vs) ≡ or_first_of (or_first_of c us) vs
  or_first_of-append (some c) us vs = refl
  or_first_of-append none [] vs = refl
  or_first_of-append none (u ∷ us) vs = refl

  search_volumes-candidate :
      (storage_id : ℕ) (c : Option (ℕ × ℕ)) (vs : List StorageVolumeInfo)
      → (search_volumes over_threshold request storage_id c vs).candidate
        ≡ choice c (usable_in storage_id vs)
  unfolding search_volumes usable_in find
  search_volumes-candidate storage_id none [] = refl
  search_volumes-candidate storage_id (some x) [] = refl
  search_volumes-candidate storage_id none (v ∷ vs) = ground (
    arith,
    search_volumes-candidate storage_id none vs,
    search_volumes-candidate storage_id (some (storage_id, v.volume_id)) vs,
  )
  search_volumes-candidate storage_id (some x) (v ∷ vs) =
      ground (arith, search_volumes-candidate storage_id (some x) vs)

  search_volumes-ended :
      (storage_id : ℕ) (c : Option (ℕ × ℕ)) (vs : List StorageVolumeInfo)
      → (search_volumes over_threshold request storage_id c vs).ended
        ≡ elim (find is_wanted (usable_in storage_id vs)) [ none ↦ false | some u ↦ true ]
  unfolding search_volumes usable_in find
  search_volumes-ended storage_id c [] = refl
  search_volumes-ended storage_id c (v ∷ vs) = ground (
    arith,
    search_volumes-ended storage_id c vs,
    search_volumes-ended storage_id (or_first c (storage_id, v.volume_id)) vs,
  )

  search_from-choice :
      (c : Option (ℕ × ℕ)) (ps : List StoragePeerInfo)
      → search_storages over_threshold request c ps ≡ choice c (usable_volumes ps)
  unfolding search_storages usable_volumes
  search_from-choice none [] = unfold find in refl
  search_from-choice (some x) [] = unfold find in refl
  search_from-choice c (p ∷ ps) =
      let us = usable_in p.storage_id p.volumes in
      let a = search_volumes-candidate p.storage_id c p.volumes in
      let b = search_volumes-ended p.storage_id c p.volumes in
      elim (Option-cases (find is_wanted us)) [
        | inr (u, f) ↦
            ground (arith, a, b, f, find-append_some is_wanted us (usable_volumes ps) u f)
        | inl f ↦ ground (
          arith,
          a,
          b,
          f,
          find-append_none is_wanted us (usable_volumes ps) f,
          or_first_of-append c us (usable_volumes ps),
          search_from-choice (or_first_of c us) ps,
        )
      ]

  -- The search gives the first usable volume with the preferred name, and without one the first
  -- usable volume; it gives nothing only when no volume is usable.
  pub search_storages-choice :
      (ps : List StoragePeerInfo)
      → search_storages over_threshold request none ps ≡ choice none (usable_volumes ps)
  search_storages-choice ps = search_from-choice none ps
