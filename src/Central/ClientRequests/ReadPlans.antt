-- ===== src/Central/ClientRequests/ReadPlans.antt =====
-- What the plan for reading a file holds (request_handlers/client.rs).
use fs.Prelude.{
  ℕ, ◌≡◌, refl, ◌∙◌, inl, inr, Bool-cases, Option-cases, false, List, [], ◌∷◌, ◌++◌, any, map,
  length, All, All-append, All-imp, arith, some,
}
use fs.Prelude.Rows.{find, update, find-All, find-where}
use fs.Core.Error.{ok, Result-cases}
use fs.Core.Hash.{HashId, hash_eq_iff}
use fs.Core.Protocol.{FileBundleRef, FileReadPlan, ReplicaLocation}
use fs.Central.Types.{CentralDb, FileBundleRow, BundleReplicaRow}
use fs.Central.Replicas.{query_batches, get_bundle_replicas_by_id}
use fs.Central.FileBundles.{get_file_bundles_by_file_id}
use fs.Central.FileBundles.Sizes.{IsIn, All-IsIn, query_batches-All, get_file_bundles_state}
use fs.Central.Files.{get_file_by_id}
use fs.Central.Files.Records.{get_file_by_id_state, file_record-inner}
use fs.Central.Dirs.Walk.{file_record}
use mathlib.Core.Path.{subst}
use fs.Central.Dirs.{CentralTx}
use fs.Central.Server.{CentralServer, OnlineVolume, is_online_volume, on_dropped_tx, tx_of}
use fs.Central.ClientRequests.{
  BundleReadTarget, is_target, new_target, with_target, push_replica, add_target, read_targets,
  bundle_ref, bundle_refs, unique_ids, read_plan, get_file_read_plan_by_id,
}

-- A stored replica of the bundle is on the volume, which the storage server has mounted.
abbrev pub IsLocated : List OnlineVolume → List BundleReplicaRow → HashId → ReplicaLocation → Type 0
IsLocated online table bundle_id location =
    (o : OnlineVolume) × (r : BundleReplicaRow) × (find (is_online_volume location.volume_id) online
      ≡ some o)
    × (o.storage_id ≡ location.storage_id)
    × IsIn r table
    × (r.bundle_id ≡ bundle_id)
    × (r.volume_id ≡ location.volume_id)

-- The lengths are those of a stored replica of the bundle.
abbrev pub IsMeasured : List BundleReplicaRow → HashId → ℕ → ℕ → Type 0
IsMeasured table bundle_id raw_len compressed_len =
    (r : BundleReplicaRow) × IsIn r table
    × (r.bundle_id ≡ bundle_id)
    × (r.raw_len ≡ raw_len)
    × (r.compressed_len ≡ compressed_len)

abbrev pub IsSome : List ReplicaLocation → Type 0
IsSome [] = ⊥
IsSome (x ∷ xs) = Unit

-- The bundles of a plan are those of the file in their order, each with its lengths and at least one
-- place to read it from.
abbrev pub Plans :
    List OnlineVolume → List BundleReplicaRow → List FileBundleRow → List FileBundleRef → Type 0
Plans online table [] [] = Unit
Plans online table [] (x ∷ xs) = ⊥
Plans online table (b ∷ bs) [] = ⊥
Plans online table (b ∷ bs) (x ∷ xs) =
    ((x.bundle_index ≡ b.bundle_index)
      × (x.bundle_id ≡ b.bundle_id)
      × IsMeasured table b.bundle_id x.raw_len x.compressed_len
      × IsSome x.replicas
      × All (IsLocated online table b.bundle_id) x.replicas)
    × Plans online table bs xs

-- A target but for a replica, and a target.
abbrev IsOpen : List OnlineVolume → List BundleReplicaRow → BundleReadTarget → Type 0
IsOpen online table t =
    IsMeasured table t.bundle_id t.raw_len t.compressed_len
    × All (IsLocated online table t.bundle_id) t.replicas

abbrev IsReady : List OnlineVolume → List BundleReplicaRow → BundleReadTarget → Type 0
IsReady online table t = IsOpen online table t × IsSome t.replicas

IsSome-append : (xs : List ReplicaLocation) (x : ReplicaLocation) → IsSome (xs ++ (x ∷ []))
IsSome-append [] x = tt
IsSome-append (y ∷ xs) x = tt

-- A bundle without replicas yet is the one that gets the next replica.
abbrev IsNext : List OnlineVolume → List BundleReplicaRow → HashId → BundleReadTarget → Type 0
IsNext online table bundle_id t =
    IsOpen online table t × (is_target bundle_id t ≡ false → IsSome t.replicas)

with_target-IsNext :
    (online : List OnlineVolume) (table : List BundleReplicaRow) (r : BundleReplicaRow)
    (ts : List BundleReadTarget)
    → IsIn r table
    → All (IsReady online table) ts
    → All (IsNext online table r.bundle_id) (with_target r ts)
with_target-IsNext online table r ts i h =
    let old : All (IsNext online table r.bundle_id) ts =
      All-imp (IsReady online table) (IsNext online table r.bundle_id) ts (λ t k. (k.0, λ e. k.1))
        h in
    elim (Bool-cases (any (is_target r.bundle_id) ts)) [
      | inl p ↦ rw p old
      | inr p ↦ rw p (
          All-append (IsNext online table r.bundle_id) ts (new_target r ∷ []) old (
            (
              ((r, i, refl, refl, refl), tt),
              λ e. absurd (ground (arith, (hash_eq_iff r.bundle_id r.bundle_id).1 refl, e)),
            ),
            tt,
          ))
    ]

pushed-IsReady :
    (online : List OnlineVolume) (table : List BundleReplicaRow) (bundle_id : HashId)
    (location : ReplicaLocation) (ts : List BundleReadTarget)
    → IsLocated online table bundle_id location
    → All (IsNext online table bundle_id) ts
    → All (IsReady online table) (update (is_target bundle_id) (push_replica location) ts)
unfolding update
pushed-IsReady online table bundle_id location [] l h = tt
pushed-IsReady online table bundle_id location (t ∷ ts) l h =
    let rest = pushed-IsReady online table bundle_id location ts l h.1 in
    elim (Bool-cases (is_target bundle_id t)) [
      | inr p ↦ rw p ((h.0.0, h.0.1 p), rest)
      | inl p ↦
          let same : t.bundle_id ≡ bundle_id = (hash_eq_iff t.bundle_id bundle_id).0 p in
          let here : IsLocated online table t.bundle_id location = rw same l in
          rw p (
            (
              (
                h.0.0.0,
                All-append (IsLocated online table t.bundle_id) t.replicas (location ∷ []) h.0.0.1
                    (here, tt),
              ),
              IsSome-append t.replicas location,
            ),
            rest,
          )
    ]

read_targets-IsReady :
    (online : List OnlineVolume) (table : List BundleReplicaRow) (ts : List BundleReadTarget)
    (rs : List BundleReplicaRow)
    → All (λ r. IsIn r table) rs
    → All (IsReady online table) ts
    → All (IsReady online table) (read_targets online ts rs)
unfolding read_targets add_target
read_targets-IsReady online table ts [] i h = h
read_targets-IsReady online table ts (r ∷ rs) i h =
    elim (Option-cases (find (is_online_volume r.volume_id) online)) [
      | inl p ↦ ground (arith, p, read_targets-IsReady online table ts rs i.1 h)
      | inr (o, p) ↦
          let location : ReplicaLocation = record {
            storage_id = o.storage_id;
            volume_id = r.volume_id;
          } in
          let added =
            pushed-IsReady online table r.bundle_id location (with_target r ts)
              (o, r, p, refl, i.0, refl, refl) (with_target-IsNext online table r ts i.0 h) in
          rw (p, All)
            (read_targets-IsReady online table
              (update (is_target r.bundle_id) (push_replica location) (with_target r ts)) rs i.1
              added)
    ]

bundle_refs-Plans :
    (online : List OnlineVolume) (table : List BundleReplicaRow) (ts : List BundleReadTarget)
    (bs : List FileBundleRow) (tx : CentralTx) (refs : List FileBundleRef)
    → All (IsReady online table) ts
    → (bundle_refs ts bs tx).0 ≡ ok refs
    → Plans online table bs refs
unfolding bundle_refs
bundle_refs-Plans online table ts [] tx [] h e = tt
bundle_refs-Plans online table ts [] tx (x ∷ xs) h e = absurd (ground (arith, e))
bundle_refs-Plans online table ts (b ∷ bs) tx xs h e =
    elim (Option-cases (find (is_target b.bundle_id) ts)) [
      | inl p ↦ absurd (ground (arith, p, e))
      | inr (t, p) ↦ elim (Result-cases (bundle_refs ts bs tx).0) [
        | inr (x, q) ↦ absurd (ground (arith, p, q, e))
        | inl (rest, q) ↦
            let eq : bundle_ref b t ∷ rest ≡ xs = ground (arith, p, q, e) in
            let same : t.bundle_id ≡ b.bundle_id =
              (hash_eq_iff t.bundle_id b.bundle_id).0 (find-where (is_target b.bundle_id) ts t p) in
            let ((measured, located), nonempty) : IsReady online table t =
              find-All (IsReady online table) (is_target b.bundle_id) ts t p h in
            subst (λ z. Plans online table (b ∷ bs) z) eq
              (
                (
                  refl,
                  refl,
                  subst (λ id. IsMeasured table id t.raw_len t.compressed_len) same measured,
                  nonempty,
                  subst (λ id. All (IsLocated online table id) t.replicas) same located,
                ),
                bundle_refs-Plans online table ts bs tx rest h q,
              )
      ]
    ]

looked_up-Plans :
    (online : List OnlineVolume) (ids : List HashId) (rows : List FileBundleRow) (db : CentralDb)
    (tx : CentralTx) (refs : List FileBundleRef)
    → (bundle_refs (read_targets online [] (get_bundle_replicas_by_id ids db)) rows tx).0 ≡ ok refs
    → Plans online db.bundle_replicas rows refs
unfolding get_bundle_replicas_by_id
looked_up-Plans online ids rows db tx refs e =
    let table : List BundleReplicaRow = db.bundle_replicas in
    bundle_refs-Plans online table _ rows tx refs
      (read_targets-IsReady online table [] (query_batches (length ids) ids db)
        (query_batches-All (λ x. IsIn x table) (length ids) ids db (All-IsIn table)) tt)
      e

read_plan-Plans :
    (online : List OnlineVolume) (file_id : ℕ) (tx : CentralTx) (plan : FileReadPlan)
    → (read_plan online file_id tx).0 ≡ ok plan
    → (rows : List FileBundleRow) × ((get_file_bundles_by_file_id file_id tx.inner).0 ≡ ok rows)
      × Plans online tx.inner.bundle_replicas rows plan.bundles
unfolding read_plan
read_plan-Plans online file_id tx plan e = elim (Result-cases (get_file_by_id file_id tx.inner).0) [
  | inr (x, p) ↦ absurd (ground (arith, p, e))
  | inl (f, p) ↦
      let tx1 : CentralTx = record tx { inner = (get_file_by_id file_id tx.inner).1 } in
      let same : (file_record f tx1).1.inner ≡ tx.inner =
        file_record-inner f tx1 ∙ get_file_by_id_state file_id tx.inner in
      elim (Result-cases (file_record f tx1).0) [
        | inr (x, q) ↦ absurd (ground (arith, p, q, e))
        | inl (r, q) ↦ elim (Result-cases (get_file_bundles_by_file_id file_id tx.inner).0) [
          | inr (x, g) ↦ absurd (ground (arith, p, q, same, g, e))
          | inl (rows, g) ↦
              let db : CentralDb =
                (get_file_bundles_by_file_id file_id (file_record f tx1).1.inner).1 in
              let unchanged : db ≡ tx.inner =
                get_file_bundles_state file_id (file_record f tx1).1.inner ∙ same in
              let tx2 : CentralTx = record (file_record f tx1).1 { inner = db } in
              let ids : List HashId = unique_ids (map (λ b. b.bundle_id) rows) in
              let ts : List BundleReadTarget =
                read_targets online [] (get_bundle_replicas_by_id ids db) in
              elim (Result-cases (bundle_refs ts rows tx2).0) [
                | inr (x, k) ↦ absurd (ground (arith, p, q, same, g, k, e))
                | inl (refs, k) ↦
                    let eq : refs ≡ plan.bundles = ground (arith, p, q, same, g, k, e) in
                    let plans : Plans online tx.inner.bundle_replicas rows refs =
                      subst (λ d. Plans online d.bundle_replicas rows refs) unchanged
                        (looked_up-Plans online ids rows db tx2 refs k) in
                    (rows, g, subst (Plans online tx.inner.bundle_replicas rows) eq plans)
              ]
        ]
      ]
]

-- When `get_file_read_plan_by_id` returns a plan, the database stays as it is, and the bundles of the
-- plan are the bundles of the file in their order, each with the lengths of a stored replica of it,
-- and with at least one place to read it from; in each place, a stored replica of the bundle is on
-- the volume, and the volume is online on the storage server named.
pub get_file_read_plan_by_id-Plans :
    (file_id : ℕ) (s : CentralServer) (plan : FileReadPlan)
    → (get_file_read_plan_by_id file_id s).0 ≡ ok plan
    → ((get_file_read_plan_by_id file_id s).1.db ≡ s.db)
      × (rows : List FileBundleRow) × ((get_file_bundles_by_file_id file_id s.db).0 ≡ ok rows)
      × Plans s.online_volumes s.db.bundle_replicas rows plan.bundles
unfolding get_file_read_plan_by_id on_dropped_tx
get_file_read_plan_by_id-Plans file_id s plan e =
    let (rows, g, plans) = read_plan-Plans s.online_volumes file_id (tx_of s) plan e in
    (refl, rows, g, plans)
