-- ===== src/Central/Dirs/Climb.antt =====
-- `get_dir_path_by_id` of db/dir.rs, which climbs to the root, against the descent by names.
use fs.Prelude.{
  ℕ, zero, suc, ◌<◌, ◌≡◌, refl, sym, ap, ◌∙◌, true, some, List, [], ◌∷◌, ◌++◌, arith, inl, inr,
  num_eq_iff, bytes_eq_iff, Option-cases,
}
use mathlib.Core.List.{append-nil}
use fs.Prelude.Rows.{find, find-All, find-where}
use fs.Core.Constants.{i64_mod}
use fs.Core.Error.{Text, ok}
use fs.Core.Convert.{column-ok}
use fs.Core.Paths.{slash}
use fs.Core.Paths.Split.{render}
use fs.Core.Paths.Roundtrip.{dir_path}
use fs.Central.Types.{DirRow, root_dir, root_dir_id}
use fs.Central.Dirs.{CentralTx, DirCacheState, get_path, remember, parent_is, is_child}
use fs.Central.Dirs.Names.{names_above, reverse_onto, join}
use fs.Central.Dirs.Walk.{get_dir_path_by_id, get_dir_id_by_path}
use fs.Central.Dirs.Cache.{get_path-Tells, get_path-told, remember-Tells}
use fs.Central.Dirs.Reference.{walk, resolve, Resolves, Resolves-root, Resolves-walk}
use fs.Central.Dirs.Resolve.{IsCoherent, IdsFit, Answers, get_dir_id_by_path-resolve}
use fs.Central.Dirs.Tree.{IsTree, IsRow, IsBelow}

reverse_twice :
    (ns above more : List Text)
    → reverse_onto (reverse_onto ns above) more ≡ reverse_onto above (ns ++ more)
unfolding reverse_onto
reverse_twice [] above more = refl
reverse_twice (n ∷ ns) above more = reverse_twice ns (n ∷ above) more

render-join : (n : Text) (ns : List Text) → slash ∷ join (n ∷ ns) ≡ render (n ∷ ns)
unfolding join render
render-join n [] = ap (λ (t : Text). slash ∷ t) (sym (append-nil n))
render-join n (m ∷ ns) = cc (render-join m ns)

join-dir_path : (ns : List Text) → slash ∷ join ns ≡ dir_path ns
unfolding dir_path
join-dir_path [] = unfold join in refl
join-dir_path (n ∷ ns) = render-join n ns

child_parent :
    (id : ℕ) (name : Text) (d : DirRow)
    → is_child id name d ≡ true
    → parent_is id d.parent_dir_id ≡ true
child_parent id name d h = ground (arith, h)

parent_same :
    (id : ℕ) (dirs : List DirRow) (d : DirRow) (b : IsBelow dirs d)
    → parent_is id d.parent_dir_id ≡ true
    → b.parent ≡ id
parent_same id dirs d b h = (num_eq_iff b.parent id).0 (rw b.has_parent at h)

rootless : (id : ℕ) (d : DirRow) → d ≡ root_dir → parent_is id d.parent_dir_id ≡ true → ⊥
rootless id d e h = absurd (ground (arith, ap (λ d. d.parent_dir_id) e, h))

module _ (dirs : List DirRow) (t : IsTree dirs) (fit : IdsFit dirs) where
  climb_one :
      (id fuel : ℕ) (name : Text) (d : DirRow) (above : List Text)
      → find (is_child id name) dirs ≡ some d
      → ((fuel : ℕ) → id < fuel → names_above fuel dirs id ≡ ok above)
      → d.dir_id < fuel
      → names_above fuel dirs d.dir_id ≡ ok (name ∷ above)
  unfolding names_above IsTree IdsFit
  climb_one id zero name d above f up h = absurd (omega (arith, h))
  climb_one id (suc fuel) name d above f up h =
      let row = find-All (IsRow dirs) (is_child id name) dirs d f t.0 in
      let small = find-All (λ d. d.dir_id < i64_mod) (is_child id name) dirs d f fit in
      let child = find-where (is_child id name) dirs d f in
      elim row.placed [
        | inl e ↦ absurd (rootless id d e (child_parent id name d child))
        | inr b ↦
            let same : b.parent ≡ id = parent_same id dirs d b (child_parent id name d child) in
            let named = (bytes_eq_iff d.name name).0 (ground (arith, child)) in
            grind (
              arith,
              column-ok d.dir_id "dir_id" small,
              row.found,
              b.has_parent,
              same,
              named,
              b.above,
              up fuel (omega (arith, h, b.above, same)),
            )
      ]

  climb :
      (id end fuel : ℕ) (ns above : List Text)
      → ((fuel : ℕ) → id < fuel → names_above fuel dirs id ≡ ok above)
      → walk dirs id ns ≡ some end
      → end < fuel
      → names_above fuel dirs end ≡ ok (reverse_onto ns above)
  unfolding walk reverse_onto
  climb id end fuel [] above up w h = grind (arith, w, up fuel)
  climb id end fuel (n ∷ ns) above up w h = elim (Option-cases (find (is_child id n) dirs)) [
    | inl f ↦ absurd (ground (arith, f, w))
    | inr (d, f) ↦
        climb d.dir_id end fuel ns (n ∷ above) (λ g k. climb_one id g n d above f up k)
          (ground (arith, f, w)) h
  ]

  climb_root : (fuel : ℕ) → root_dir_id < fuel → names_above fuel dirs root_dir_id ≡ ok []
  unfolding names_above IsTree
  climb_root zero h = absurd (omega (arith, h))
  climb_root (suc fuel) h = ground (arith, column-ok root_dir_id "dir_id" (omega arith), t.1)

  -- The names above a directory are those of every walk that leads to it.
  names_above-walk :
      (ns : List Text) (id : ℕ)
      → walk dirs root_dir_id ns ≡ some id
      → names_above (suc id) dirs id ≡ ok (reverse_onto ns [])
  names_above-walk ns id w = climb root_dir_id id (suc id) ns [] climb_root w (omega arith)

  walk_unique :
      (ns ms : List Text) (id : ℕ)
      → walk dirs root_dir_id ns ≡ some id
      → walk dirs root_dir_id ms ≡ some id
      → ns ≡ ms
  unfolding reverse_onto
  walk_unique ns ms id v w =
      let e : reverse_onto ns [] ≡ reverse_onto ms [] =
        ground (arith, names_above-walk ns id v, names_above-walk ms id w) in
      sym (append-nil ns)
      ∙ sym (reverse_twice ns [] [])
      ∙ ap (λ (ts : List Text). reverse_onto ts []) e
      ∙ reverse_twice ms [] []
      ∙ append-nil ms

  -- A directory has one path.
  pub Resolves-unique :
      (path other : Text) (id : ℕ) → Resolves dirs path id → Resolves dirs other id → path ≡ other
  Resolves-unique path other id r q =
      let (ns, hn, p, w) = Resolves-walk dirs path id r in
      let (ms, hm, o, v) = Resolves-walk dirs other id q in
      rw (p, o) (ap dir_path (walk_unique ns ms id w v))

  path_above :
      (path : Text) (id : ℕ)
      → Resolves dirs path id
      → (names : List Text) × (names_above (suc id) dirs id ≡ ok names)
        × (slash ∷ join (reverse_onto names []) ≡ path)
  unfolding reverse_onto
  path_above path id r =
      let (ns, hn, p, w) = Resolves-walk dirs path id r in
      (
        reverse_onto ns [],
        names_above-walk ns id w,
        rw (p, reverse_twice ns [] [], append-nil ns) (join-dir_path ns),
      )

-- With a coherent cache and a table that is a tree, the id of a path leads `get_dir_path_by_id` back
-- to the path, whether it finds it in the cache or climbs to the root, where its loop ends; it
-- leaves the tables as they are and the cache coherent.
pub get_dir_path_by_id-resolve :
    (path : Text) (id : ℕ) (tx : CentralTx)
    → IsCoherent tx
    → IsTree tx.inner.dirs
    → IdsFit tx.inner.dirs
    → resolve tx.inner.dirs path ≡ ok id
    → Answers tx (ok path) (get_dir_path_by_id id tx)
unfolding get_dir_path_by_id IsCoherent
get_dir_path_by_id-resolve path id tx h t fit r =
    let c : DirCacheState = (get_path id tx.dir_cache).1 in
    let hc = get_path-Tells (Resolves tx.inner.dirs) id tx.dir_cache h in
    elim (Option-cases (get_path id tx.dir_cache).0) [
      | inr (found, f) ↦
          let told =
            get_path-told (Resolves tx.inner.dirs) id tx.dir_cache found
              (Resolves-root tx.inner.dirs) h f in
          (c, hc, ground (arith, f, Resolves-unique tx.inner.dirs t fit found path id told r))
      | inl f ↦
          let (names, up, p) = path_above tx.inner.dirs t fit path id r in
          (
            remember id path c,
            remember-Tells (Resolves tx.inner.dirs) id path c hc r,
            ground (arith, f, up, p),
          )
    ]

-- With a coherent cache and a table that is a tree, the id that `get_dir_id_by_path` gives for a path
-- leads `get_dir_path_by_id` back to that path.
pub get_dir_path_by_id-get_dir_id_by_path :
    (path : Text) (id : ℕ) (tx : CentralTx)
    → IsCoherent tx
    → IsTree tx.inner.dirs
    → IdsFit tx.inner.dirs
    → (get_dir_id_by_path path tx).0 ≡ ok id
    → Answers tx (ok path) (get_dir_path_by_id id (get_dir_id_by_path path tx).1)
get_dir_path_by_id-get_dir_id_by_path path id tx h t fit e =
    let (c, hc, p) = get_dir_id_by_path-resolve path tx h fit in
    let r : resolve tx.inner.dirs path ≡ ok id = ground (arith, p, e) in
    rw p (
      get_dir_path_by_id-resolve path id (record tx { dir_cache = c }) (unfold IsCoherent in hc) t
        fit r)
