-- ===== src/Central/Dirs/Resolve.antt =====
-- `get_dir_id_by_path` with its cache against the tree that the table stores.
use fs.Prelude.{
  ℕ, ◌<◌, ◌≡◌, refl, ◌∙◌, none, some, List, [], ◌∷◌, ◌++◌, arith, All, All-append, inl, inr,
  Option-cases,
}
use fs.Prelude.Rows.{find, find-All}
use fs.Core.Constants.{i64_mod}
use fs.Core.Error.{Text, Fs0Result, ok_or, not_found, Result-cases}
use fs.Core.Convert.{column-ok}
use fs.Core.Paths.{split_fs0_path_components}
use fs.Core.Paths.Split.{IsName}
use fs.Core.Paths.Roundtrip.{dir_path, components_sound, join-child_path}
use fs.Central.Types.{DirRow, root_dir_id}
use fs.Central.Dirs.{CentralTx, DirCacheState, get_id, is_child, remember}
use fs.Central.Dirs.Walk.{select_child, step_down, find_from, get_dir_id_by_path}
use fs.Central.Dirs.Cache.{Tells, get_id-Tells, get_id-told, remember-Tells}
use fs.Central.Dirs.Reference.{
  walk, resolve, Resolves, walk-append, resolve-dir_path, Resolves-root,
}

-- Every id of the table fits its column.
unfoldable pub IdsFit : List DirRow → Type 0
IdsFit dirs = All (λ d. d.dir_id < i64_mod) dirs

-- The cache of a transaction agrees with its table of directories.
unfoldable pub IsCoherent : CentralTx → Type 0
IsCoherent tx = Tells (Resolves tx.inner.dirs) tx.dir_cache

-- A query that gives this result, leaves the tables alone and the cache coherent.
abbrev pub Answers : {A : Type 0} → CentralTx → Fs0Result A → Fs0Result A × CentralTx → Type 0
Answers tx r out =
    (c : DirCacheState) × Tells (Resolves tx.inner.dirs) c
    × (out ≡ (r, record tx { dir_cache = c }))

pub resolve-child :
    (dirs : List DirRow) (id : ℕ) (done : List Text) (name : Text)
    → All IsName done
    → IsName name
    → walk dirs root_dir_id done ≡ some id
    → resolve dirs (dir_path (done ++ (name ∷ []))) ≡ ok_or (walk dirs id (name ∷ [])) not_found
resolve-child dirs id done name hd hn w =
    rw
      (
        resolve-dir_path dirs (done ++ (name ∷ []))
            (All-append IsName done (name ∷ []) hd (hn, tt)),
        walk-append dirs root_dir_id id done (name ∷ []) w,
      )
      refl

module _ (id : ℕ) (name path : Text) where
  select_child-Answers :
      (tx : CentralTx)
      → IsCoherent tx
      → id < i64_mod
      → resolve tx.inner.dirs path ≡ ok_or (walk tx.inner.dirs id (name ∷ [])) not_found
      → Answers tx (resolve tx.inner.dirs path) (select_child id name path tx)
  unfolding select_child walk IsCoherent
  select_child-Answers tx h k e = elim (Option-cases (find (is_child id name) tx.inner.dirs)) [
    | inl f ↦ (tx.dir_cache, h, ground (arith, e, f, column-ok id "parent_dir_id" k))
    | inr (d, f) ↦ (
      remember d.dir_id path tx.dir_cache,
      remember-Tells (Resolves tx.inner.dirs) d.dir_id path tx.dir_cache h (ground (arith, e, f)),
      ground (arith, e, f, column-ok id "parent_dir_id" k),
    )
  ]

  step_down-Answers :
      (tx : CentralTx)
      → IsCoherent tx
      → id < i64_mod
      → resolve tx.inner.dirs path ≡ ok_or (walk tx.inner.dirs id (name ∷ [])) not_found
      → Answers tx (resolve tx.inner.dirs path) (step_down id name path tx)
  unfolding step_down IsCoherent
  step_down-Answers tx h k e =
      let c : DirCacheState = (get_id path tx.dir_cache).1 in
      let hc = get_id-Tells (Resolves tx.inner.dirs) path tx.dir_cache h in
      elim (Option-cases (get_id path tx.dir_cache).0) [
        | inr (cached, f) ↦
            let told =
              get_id-told (Resolves tx.inner.dirs) path tx.dir_cache cached
                (Resolves-root tx.inner.dirs) h f in
            (c, hc, ground (arith, f, told))
        | inl f ↦
            let (d, hd, q) = select_child-Answers (record tx { dir_cache = c }) hc k e in
            (d, hd, ground (arith, f, q))
      ]

walk-fits :
    (dirs : List DirRow) (id end : ℕ) (name : Text)
    → IdsFit dirs
    → walk dirs id (name ∷ []) ≡ some end
    → end < i64_mod
unfolding walk IdsFit
walk-fits dirs id end name fit e = elim (Option-cases (find (is_child id name) dirs)) [
  | inl f ↦ absurd (ground (arith, e, f))
  | inr (d, f) ↦
      let k = find-All (λ d. d.dir_id < i64_mod) (is_child id name) dirs d f fit in
      grind (arith, e, f, k)
]

walk-none :
    (dirs : List DirRow) (id : ℕ) (n : Text) (ns : List Text)
    → walk dirs id (n ∷ []) ≡ none
    → walk dirs id (n ∷ ns) ≡ none
unfolding walk
walk-none dirs id n ns e = elim (Option-cases (find (is_child id n) dirs)) [
  | inl f ↦ ground (arith, f)
  | inr (d, f) ↦ absurd (ground (arith, e, f))
]

find_from-Answers :
    (id : ℕ) (done ns : List Text) (tx : CentralTx)
    → IdsFit tx.inner.dirs
    → IsCoherent tx
    → id < i64_mod
    → All IsName done
    → All IsName ns
    → walk tx.inner.dirs root_dir_id done ≡ some id
    → Answers tx (ok_or (walk tx.inner.dirs id ns) not_found) (find_from id (dir_path done) ns tx)
unfolding find_from
find_from-Answers id done [] tx fit h k hd hs w =
    (tx.dir_cache, unfold IsCoherent in h, unfold walk in refl)
find_from-Answers id done (n ∷ ns) tx fit h k hd hs w =
    let path : Text = dir_path (done ++ (n ∷ [])) in
    let e = resolve-child tx.inner.dirs id done n hd hs.0 w in
    let (c, hc, q) = step_down-Answers id n path tx h k e in
    elim (Option-cases (walk tx.inner.dirs id (n ∷ []))) [
      | inl f ↦ (
        c,
        hc,
        ground (arith, join-child_path done n hd, q, e, f, walk-none tx.inner.dirs id n ns f),
      )
      | inr (next, f) ↦
          let (d, kd, p) =
            find_from-Answers next (done ++ (n ∷ [])) ns (record tx { dir_cache = c }) fit
              (unfold IsCoherent in hc) (walk-fits tx.inner.dirs id next n fit f)
              (All-append IsName done (n ∷ []) hd (hs.0, tt)) hs.1
              (walk-append tx.inner.dirs root_dir_id id done (n ∷ []) w ∙ f) in
          (
            d,
            kd,
            ground (
              arith,
              join-child_path done n hd,
              q,
              e,
              f,
              p,
              walk-append tx.inner.dirs id next (n ∷ []) ns f,
            ),
          )
    ]

-- With a coherent cache, `get_dir_id_by_path` gives what walking the table alone gives, errors
-- included; it leaves the tables as they are and the cache coherent.
pub get_dir_id_by_path-resolve :
    (path : Text) (tx : CentralTx)
    → IsCoherent tx
    → IdsFit tx.inner.dirs
    → Answers tx (resolve tx.inner.dirs path) (get_dir_id_by_path path tx)
unfolding get_dir_id_by_path IsCoherent
get_dir_id_by_path-resolve path tx h fit =
    let c : DirCacheState = (get_id path tx.dir_cache).1 in
    let hc = get_id-Tells (Resolves tx.inner.dirs) path tx.dir_cache h in
    elim (Option-cases (get_id path tx.dir_cache).0) [
      | inr (cached, f) ↦
          let told =
            get_id-told (Resolves tx.inner.dirs) path tx.dir_cache cached
              (Resolves-root tx.inner.dirs) h f in
          (c, hc, ground (arith, f, told))
      | inl f ↦ elim (Result-cases (split_fs0_path_components path)) [
        | inr (e, p) ↦ (c, hc, unfold resolve in ground (arith, f, p))
        | inl (ns, p) ↦
            let names = (components_sound path ns p).1 in
            let (d, hd, q) =
              find_from-Answers root_dir_id [] ns (record tx { dir_cache = c }) fit hc (omega arith)
                tt names (unfold walk in refl) in
            (d, hd, unfold resolve dir_path in ground (arith, f, p, q))
      ]
    ]
