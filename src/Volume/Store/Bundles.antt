-- ===== src/Volume/Store/Bundles.antt =====
-- What `commit_bundle` stores (volume.rs and db.rs), and the change records.
use fs.Prelude.{
  ℕ, suc, ◌≤◌, ◌≡◌, ◌≢◌, refl, sym, ap, ◌∙◌, inl, inr, Option-cases, true, not, List, [], ◌∷◌, ◌++◌,
  map, arith,
}
use mathlib.Core.List.{append_assoc, append-nil}
use fs.Prelude.Rows.{
  select, delete, order_by, order_by-sorted, Ascends, select-append, select-delete,
}
use fs.Core.Hash.{HashId, hash_eq, hash_eq_iff}
use fs.Core.Error.{Fs0Error, Fs0Result, ok, err, Result-cases, bundle_not_found}
use fs.Core.Exec.{reject-ok, reject-passed, bind-ok}
use fs.Core.Convert.{column-cases}
use fs.Core.Protocol.{BundleChunkRef}
use fs.Volume.Types.{BundleMeta, BundleChunkRow, Tables, VolumeDb}
use fs.Volume.Db.{
  has_bundle_id, insert_bundle_chunk, insert_bundle_chunks, commit_bundle_tx, list_bundle_chunks_db,
  load_bundle, load_chunks_by_ids, commit_bundle_db,
}
use fs.Volume.Store.{
  commit_bundle, list_bundle_chunks, contiguous_from, is_nil, commit_new, first_missing, chunk_ids,
  bundle_hash_from_chunks,
}

abbrev to_row : HashId → BundleChunkRef → BundleChunkRow
to_row id c = record { bundle_id = id; chunk_index = c.chunk_index; chunk_id = c.chunk_id }

abbrev with_rows : Tables → List BundleChunkRow → Tables
with_rows conn rows = record conn { bundle_chunks = conn.bundle_chunks ++ rows }

insert_one-ok :
    (id : HashId) (c : BundleChunkRef) (conn : Tables)
    → (insert_bundle_chunk id c conn).0 ≡ ok tt
    → (insert_bundle_chunk id c conn).1 ≡ with_rows conn (to_row id c ∷ [])
unfolding insert_bundle_chunk
insert_one-ok id c conn h = elim (column-cases c.chunk_index "chunk_index") [
  | inl e ↦ ground (arith, e)
  | inr (x, e) ↦ absurd (ground (arith, e))
]

insert_all-ok :
    (id : HashId) (cs : List BundleChunkRef) (conn : Tables)
    → (insert_bundle_chunks id cs conn).0 ≡ ok tt
    → (insert_bundle_chunks id cs conn).1.bundle_chunks ≡ conn.bundle_chunks ++ map (to_row id) cs
unfolding insert_bundle_chunks
insert_all-ok id [] conn h = sym (append-nil conn.bundle_chunks)
insert_all-ok id (c ∷ cs) conn h = elim (Result-cases (insert_bundle_chunk id c conn).0) [
  | inr (x, e) ↦ absurd (ground (arith, e))
  | inl (t, e) ↦
      let rest = bind-ok (insert_bundle_chunk id c) (λ _. insert_bundle_chunks id cs) conn t e in
      let one = insert_one-ok id c conn e in
      let done =
        insert_all-ok id cs (insert_bundle_chunk id c conn).1
          (ap (λ (r : Fs0Result (Unit {0}) × Tables). r.0) (sym rest) ∙ h) in
      ap (λ (r : Fs0Result (Unit {0}) × Tables). r.1.bundle_chunks) rest
      ∙ (done
          ∙ (ap (λ (t : Tables). t.bundle_chunks ++ map (to_row id) cs) one
              ∙ append_assoc conn.bundle_chunks (to_row id c ∷ []) (map (to_row id) cs)))
]

Ascends-less :
    (low high : ℕ) (rows : List BundleChunkRow)
    → low ≤ high
    → Ascends (λ (r : BundleChunkRow). r.chunk_index) high rows
    → Ascends (λ (r : BundleChunkRow). r.chunk_index) low rows
Ascends-less low high [] h a = tt
Ascends-less low high (r ∷ rs) h a = (omega arith, a.1)

rows-Ascend :
    (id : HashId) (i : ℕ) (cs : List BundleChunkRef)
    → contiguous_from i cs ≡ true
    → Ascends (λ (r : BundleChunkRow). r.chunk_index) i (map (to_row id) cs)
unfolding contiguous_from
rows-Ascend id i [] h = tt
rows-Ascend id i (c ∷ cs) h = (
  ground arith,
  Ascends-less c.chunk_index (suc i) _ (ground arith) (rows-Ascend id (suc i) cs (ground arith)),
)

select_rows :
    (id : HashId) (cs : List BundleChunkRef)
    → select (has_bundle_id id) (map (to_row id) cs) ≡ map (to_row id) cs
unfolding select
select_rows id [] = refl
select_rows id (c ∷ cs) = ground (arith, (hash_eq_iff id id).1 refl, select_rows id cs)

back : List BundleChunkRow → List BundleChunkRef
back = map λ r. record { chunk_index = r.chunk_index; chunk_id = r.chunk_id }

back-rows : (id : HashId) (cs : List BundleChunkRef) → back (map (to_row id) cs) ≡ cs
unfolding back
back-rows id [] = refl
back-rows id (c ∷ cs) = ap (λ (t : List BundleChunkRef). c ∷ t) (back-rows id cs)

abbrev cleaned : HashId → Tables → Tables
cleaned id conn = record conn { bundle_chunks = delete (has_bundle_id id) conn.bundle_chunks }

tx-chunks :
    (id : HashId) (cs : List BundleChunkRef) (conn : Tables)
    → (insert_bundle_chunks id cs (cleaned id conn)).0 ≡ ok tt
    → (commit_bundle_tx id cs conn).1.bundle_chunks
      ≡ (insert_bundle_chunks id cs (cleaned id conn)).1.bundle_chunks
unfolding commit_bundle_tx
tx-chunks id cs conn e = ground (arith, e)

tx-err :
    (id : HashId) (cs : List BundleChunkRef) (conn : Tables) (x : Fs0Error)
    → (insert_bundle_chunks id cs (cleaned id conn)).0 ≡ err x
    → (commit_bundle_tx id cs conn).0 ≡ err x
unfolding commit_bundle_tx
tx-err id cs conn x e = ground (arith, e)

-- The rows of the bundle after its transaction.
tx-rows :
    (id : HashId) (cs : List BundleChunkRef) (conn : Tables)
    → (commit_bundle_tx id cs conn).0 ≡ ok tt
    → select (has_bundle_id id) (commit_bundle_tx id cs conn).1.bundle_chunks ≡ map (to_row id) cs
tx-rows id cs conn h = elim (Result-cases (insert_bundle_chunks id cs (cleaned id conn)).0) [
  | inr (x, e) ↦ absurd (ground (arith, tx-err id cs conn x e))
  | inl (t, e) ↦
      ap (select (has_bundle_id id))
        (tx-chunks id cs conn e ∙ insert_all-ok id cs (cleaned id conn) e)
      ∙ (select-append (has_bundle_id id) _ (map (to_row id) cs)
          ∙ cc (select-delete (has_bundle_id id) conn.bundle_chunks, select_rows id cs))
]

listed :
    (id : HashId) (cs : List BundleChunkRef) (db : VolumeDb)
    → contiguous_from 0 cs ≡ true
    → select (has_bundle_id id) db.conn.bundle_chunks ≡ map (to_row id) cs
    → list_bundle_chunks_db id db ≡ cs
unfolding list_bundle_chunks_db back
listed id cs db h e =
    ap (λ (t : List BundleChunkRow). back (order_by (λ (r : BundleChunkRow). r.chunk_index) t)) e
    ∙ (ap back (
          order_by-sorted (λ (r : BundleChunkRow). r.chunk_index) 0 (map (to_row id) cs)
            (rows-Ascend id 0 cs h))
        ∙ back-rows id cs)

commit_db-list :
    (id : HashId) (cs : List BundleChunkRef) (db : VolumeDb) (m : BundleMeta)
    → contiguous_from 0 cs ≡ true
    → (commit_bundle_db id cs db).0 ≡ ok m
    → (list_bundle_chunks_db id (commit_bundle_db id cs db).1 ≡ cs)
      × (load_bundle id (commit_bundle_db id cs db).1 ≡ ok m)
unfolding commit_bundle_db
commit_db-list id cs db m c h = elim (Result-cases (commit_bundle_tx id cs db.conn).0) [
  | inr (x, e) ↦ absurd (ground (arith, e))
  | inl (t, e) ↦
      rw (e, commit_bundle_db)
        (listed id cs _ c (tx-rows id cs db.conn e), rw (e, commit_bundle_db) at h)
]

commit_new-missing :
    (id : HashId) (cs : List BundleChunkRef) (db : VolumeDb) (m : BundleMeta)
    → load_bundle id db ≡ err (bundle_not_found id)
    → (commit_new id cs db).0 ≡ ok m
    → commit_new id cs db ≡ commit_bundle_db id cs db
unfolding commit_new
commit_new-missing id cs db m e h =
    elim (Option-cases (first_missing (load_chunks_by_ids (chunk_ids cs) db) cs)) [
      | inl f ↦ ground (arith, e, f)
      | inr (x, f) ↦ absurd (ground (arith, e, f))
    ]

module _ (blake3 : List ℕ → List ℕ) where
  -- When a bundle that is not stored is committed with success, its chunk list is the committed
  -- list, in order, its metadata is what the commit returned, its id is the hash of its chunk ids,
  -- and it has at least one chunk.
  pub list_bundle_chunks-commit_bundle :
      (id : HashId) (cs : List BundleChunkRef) (db : VolumeDb) (m : BundleMeta)
      → load_bundle id db ≡ err (bundle_not_found id)
      → (commit_bundle blake3 id cs db).0 ≡ ok m
      → (list_bundle_chunks id (commit_bundle blake3 id cs db).1 ≡ ok cs)
        × (load_bundle id (commit_bundle blake3 id cs db).1 ≡ ok m)
        × (bundle_hash_from_chunks blake3 cs ≡ id)
        × (cs ≢ [])
  unfolding commit_bundle list_bundle_chunks
  list_bundle_chunks-commit_bundle id cs db m missing h =
      let n1 = reject-passed (is_nil cs) _ _ db m h in
      let e1 = reject-ok (is_nil cs) _ _ db m h in
      let h1 = rw e1 at h in
      let n2 = reject-passed (not (contiguous_from 0 cs)) _ _ db m h1 in
      let e2 = reject-ok (not (contiguous_from 0 cs)) _ _ db m h1 in
      let h2 = rw e2 at h1 in
      let n3 = reject-passed (not (hash_eq (bundle_hash_from_chunks blake3 cs) id)) _ _ db m h2 in
      let e3 =
        reject-ok (not (hash_eq (bundle_hash_from_chunks blake3 cs) id)) _ (commit_new id cs) db m
          h2 in
      let h3 = rw e3 at h2 in
      let e4 = commit_new-missing id cs db m missing h3 in
      let (l, b) = commit_db-list id cs db m (ground arith) (rw e4 at h3) in
      rw (e1, e2, e3, e4)
        (ground (arith, l, n1), b, (hash_eq_iff _ id).0 (ground arith), λ e. ground (arith, e, n1))
