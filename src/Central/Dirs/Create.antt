-- ===== src/Central/Dirs/Create.antt =====
-- `create_dir` of db/dir.rs as a whole.
use fs.Prelude.{
  ℕ, ◌≡◌, refl, ap, ◌∙◌, List, [], ◌∷◌, ◌++◌, ◌⊎◌, arith, All, All-append, inl, inr, Option-cases,
}
use mathlib.Core.List.{append-nil, append_assoc}
use mathlib.Core.Path.{sym, subst}
use fs.Core.Error.{Text, Fs0Error, Fs0Result, ok, err, Result-cases}
use fs.Core.Paths.{root, split_fs0_path_components}
use fs.Core.Paths.Split.{IsName}
use fs.Core.Paths.Roundtrip.{dir_path, components_sound, join-child_path}
use fs.Central.Types.{CentralDb, DirRow, root_dir_id}
use fs.Central.Dirs.{CentralTx, DirCacheState, get_id}
use fs.Central.Dirs.Walk.{enter_or_create, create_from, create_dir}
use fs.Central.Dirs.Cache.{Tells, Tells-imp, get_id-Tells, get_id-told}
use fs.Central.Dirs.Reference.{
  walk, resolve, Resolves, Resolves-root, Resolves-grown, walk-Resolves,
}
use fs.Central.Dirs.Resolve.{IsCoherent}
use fs.Central.Dirs.Tree.{IsTree}
use fs.Central.Dirs.Steps.{IsKept, IsUnder, Enters, failed, entered, enter_or_create-Enters}

continued :
    (id : ℕ) (done : List Text) (n : Text) (ns : List Text) (tx : CentralTx) (next : ℕ)
    → All IsName done
    → (enter_or_create id n (dir_path (done ++ (n ∷ []))) tx).0 ≡ ok next
    → create_from id (dir_path done) (n ∷ ns) tx
      ≡ create_from next
          (dir_path (done ++ (n ∷ [])))
          ns
          (enter_or_create id n (dir_path (done ++ (n ∷ []))) tx).1
unfolding create_from
continued id done n ns tx next hd p = ground (arith, p, join-child_path done n hd)

create_from-Enters :
    (base : CentralDb) (id : ℕ) (done ns : List Text) (tx : CentralTx)
    → IsUnder base done id tx
    → All IsName done
    → All IsName ns
    → Enters base (done ++ ns) (create_from id (dir_path done) ns tx)
unfolding create_from
create_from-Enters base id done [] tx u hd hs =
    entered base (done ++ []) (create_from id (dir_path done) [] tx) id tx refl
      (rw (append-nil done) u)
create_from-Enters base id done (n ∷ ns) tx u hd hs =
    let path : Text = dir_path (done ++ (n ∷ [])) in
    let out : Fs0Result ℕ × CentralTx = enter_or_create id n path tx in
    let whole : Fs0Result ℕ × CentralTx = create_from id (dir_path done) (n ∷ ns) tx in
    elim (enter_or_create-Enters base done n id tx u hd hs.0) [
      | inl (e, p, k) ↦
          failed base (done ++ (n ∷ ns)) whole e out.1
            (ground (arith, p, join-child_path done n hd)) k
      | inr (next, p, v) ↦
          let rest =
            create_from-Enters base next (done ++ (n ∷ [])) ns out.1 v
              (All-append IsName done (n ∷ []) hd (hs.0, tt)) hs.1 in
          subst (λ (ts : List Text). Enters base ts whole) (append_assoc done (n ∷ []) ns)
            (rw (continued id done n ns tx next hd p) rest)
    ]

-- What `create_dir` leaves when it starts from a coherent cache.
abbrev pub Grows : CentralTx → CentralTx → Type 0
Grows before after =
    ((more : List DirRow) × (after.inner
        ≡ record before.inner { dirs = before.inner.dirs ++ more }))
    × Tells (Resolves before.inner.dirs) after.dir_cache
    × IsCoherent after
    × IsTree after.inner.dirs

IsKept-Grows : (before after : CentralTx) → IsKept before.inner after → Grows before after
unfolding IsCoherent
IsKept-Grows before after k = (
  (k.more, k.rest ∙ ap (λ (ds : List DirRow). record before.inner { dirs = ds }) k.grew),
  k.told,
  Tells-imp (Resolves before.inner.dirs) (Resolves after.inner.dirs) after.dir_cache grow k.told,
  k.tree,
)
  where
    grow :
        (path : Text) (id : ℕ)
        → Resolves before.inner.dirs path id
        → Resolves after.inner.dirs path id
    grow path id r = rw k.grew (Resolves-grown before.inner.dirs k.more path id r)

from_root :
    (base : CentralDb) (ns : List Text) (tx : CentralTx)
    → tx.inner.dirs ≡ base.dirs
    → All IsName ns
    → IsKept base tx
    → Enters base ns (create_from root_dir_id root ns tx)
unfolding dir_path
from_root base ns tx same h k =
    create_from-Enters base root_dir_id [] ns tx
      (record { kept = k; led = unfold walk in refl; since = inl (same, unfold walk in refl) }) tt h

-- The outcome of `create_dir`.
abbrev pub Creates : Text → CentralTx → Fs0Result ℕ × CentralTx → Type 0
Creates path tx out =
    Grows tx out.1
    × (((e : Fs0Error) × (out.0 ≡ err e))
        ⊎ ((id : ℕ) × (out.0 ≡ ok id) × (resolve out.1.inner.dirs path ≡ ok id)))

Creates-ok :
    (path : Text) (tx t : CentralTx) (id : ℕ) (out : Fs0Result ℕ × CentralTx)
    → out ≡ (ok id, t)
    → Grows tx t
    → Resolves t.inner.dirs path id
    → Creates path tx out
Creates-ok path tx t id out p g r = rw p (g, inr (id, refl, r))

Creates-err :
    (path : Text) (tx t : CentralTx) (e : Fs0Error) (out : Fs0Result ℕ × CentralTx)
    → out ≡ (err e, t)
    → Grows tx t
    → Creates path tx out
Creates-err path tx t e out p g = rw p (g, inl (e, refl))

Creates-entered :
    (path : Text) (tx : CentralTx) (ns : List Text) (out walked : Fs0Result ℕ × CentralTx)
    → out ≡ walked
    → path ≡ dir_path ns
    → All IsName ns
    → Enters tx.inner ns walked
    → Creates path tx out
Creates-entered path tx ns out walked q p h en = rw q (elim en [
  | inl (e, r, k) ↦ (IsKept-Grows tx walked.1 k, inl (e, r))
  | inr (id, r, u) ↦ (
    IsKept-Grows tx walked.1 u.kept,
    inr (id, r, rw p (walk-Resolves walked.1.inner.dirs ns id h u.led)),
  )
])

module _ (tx : CentralTx) (c : DirCacheState) where
  hit-IsKept :
      Tells (Resolves tx.inner.dirs) c
      → IsTree tx.inner.dirs
      → IsKept tx.inner (record tx { dir_cache = c })
  hit-IsKept h t = record {
    more = [];
    grew = sym (append-nil tx.inner.dirs);
    rest = refl;
    told = h;
    tree = t;
  }

-- From a coherent cache and a table that is a tree, `create_dir` only adds rows, also when it fails,
-- and the table stays a tree; afterwards the cache agrees with the table after it and also with
-- the table before it, which is there again if the transaction is rolled back. When it succeeds, the
-- path resolves to the id that it gave.
pub create_dir-resolve :
    (path : Text) (tx : CentralTx)
    → IsCoherent tx
    → IsTree tx.inner.dirs
    → Creates path tx (create_dir path tx)
unfolding create_dir IsCoherent
create_dir-resolve path tx h t =
    let c : DirCacheState = (get_id path tx.dir_cache).1 in
    let kept = hit-IsKept tx c (get_id-Tells (Resolves tx.inner.dirs) path tx.dir_cache h) t in
    let after : CentralTx = record tx { dir_cache = c } in
    elim (Option-cases (get_id path tx.dir_cache).0) [
      | inr (id, f) ↦
          Creates-ok path tx after id (create_dir path tx) (ground (arith, f))
            (IsKept-Grows tx after kept)
            (get_id-told (Resolves tx.inner.dirs) path tx.dir_cache id (Resolves-root tx.inner.dirs)
              h f)
      | inl f ↦ elim (Result-cases (split_fs0_path_components path)) [
        | inr (e, p) ↦
            Creates-err path tx after e (create_dir path tx) (ground (arith, f, p))
              (IsKept-Grows tx after kept)
        | inl (ns, p) ↦
            let (q, names) = components_sound path ns p in
            Creates-entered path tx ns (create_dir path tx) (create_from root_dir_id root ns after)
              (ground (arith, f, p)) q names (from_root tx.inner ns after refl names kept)
      ]
    ]
