-- ===== src/Central/Dirs/Steps.antt =====
-- `create_dir` of db/dir.rs: what it makes of the tree, and that the cache stays true of the tree
-- before it, which a transaction that is rolled back puts back.
use fs.Prelude.{
  ℕ, ◌+◌, ◌≤◌, ◌≡◌, refl, ap, ◌∙◌, ◌⊎◌, inl, inr, none, some, List, [], ◌∷◌, ◌++◌, arith, any, All,
  All-append, Option-cases, Bool-cases,
}
use mathlib.Core.List.{append_assoc}
use fs.Prelude.Rows.{find}
use fs.Core.Error.{Text, Fs0Error, Fs0Result, ok, err, already_exists}
use fs.Core.Convert.{column-cases}
use fs.Core.Paths.{is_empty}
use fs.Core.Paths.Split.{IsName}
use fs.Core.Paths.Roundtrip.{dir_path}
use fs.Central.Types.{CentralDb, DirRow, root_dir_id}
use fs.Central.Leases.{foreign_key_failed}
use fs.Central.Dirs.{
  CentralTx, DirCacheState, get_id, has_dir_id, is_child, is_file_in, is_taken, remember, with_dir,
  insert_dir, ensure_child_name_available, largest_dir_id, new_dir, dir_check_failed,
}
use fs.Central.Dirs.Walk.{insert_child, select_or_insert, enter_or_create}
use fs.Central.Dirs.Cache.{Tells, get_id-Tells, get_id-told, remember-Tells}
use fs.Central.Dirs.Reference.{
  walk, resolve, Resolves, walk-append_none, walk-grown, Resolves-root, walk-Resolves, walk-child,
  walk_of_path,
}
use fs.Central.Dirs.Tree.{
  IsTree, grown, IsTree-grown, find_child-grown, childless-tree, largest-grown, any-largest,
}

-- An insertion adds the row of the new directory, or fails and changes nothing.
insert_child-cases :
    (id : ℕ) (name path : Text) (db : CentralDb)
    → ((insert_child id name path db ≡ (ok (largest_dir_id db.dirs + 1), with_dir id name db))
        × (id ≤ largest_dir_id db.dirs))
      ⊎ ((e : Fs0Error) × (insert_child id name path db ≡ (err e, db)))
unfolding insert_child insert_dir ensure_child_name_available
insert_child-cases id name path db = elim (column-cases id "parent_dir_id") [
  | inr (e, p) ↦ inr (e, ground (arith, p))
  | inl p ↦ elim (Bool-cases (any (is_child id name) db.dirs)) [
    | inl q ↦ inr (already_exists path, ground (arith, p, q))
    | inr q ↦ elim (Bool-cases (is_taken none (find (is_file_in id name) db.files))) [
      | inl r ↦ inr (already_exists path, ground (arith, p, q, r))
      | inr r ↦ elim (Bool-cases (is_empty name)) [
        | inl u ↦ inr (dir_check_failed, ground (arith, p, q, r, u))
        | inr u ↦ elim (Bool-cases (any (has_dir_id id) db.dirs)) [
          | inl v ↦ inl (ground (arith, p, q, r, u, v), any-largest id db.dirs v)
          | inr v ↦ inr (foreign_key_failed, ground (arith, p, q, r, u, v))
        ]
      ]
    ]
  ]
]

-- What each step leaves: the old rows with new ones behind them, a tree, and a cache that is true of
-- the old rows.
pub record IsKept (base : CentralDb) (tx : CentralTx) : Type 0 where
  pub more : List DirRow
  pub grew : tx.inner.dirs ≡ base.dirs ++ more
  pub rest : tx.inner ≡ record base { dirs = tx.inner.dirs }
  pub told : Tells (Resolves base.dirs) tx.dir_cache
  pub tree : IsTree tx.inner.dirs

-- The directory that the names lead to: an old one as long as nothing was inserted, and from then on
-- the one that was inserted last.
pub record IsUnder (base : CentralDb) (done : List Text) (id : ℕ) (tx : CentralTx) : Type 0 where
  pub kept : IsKept base tx
  pub led : walk tx.inner.dirs root_dir_id done ≡ some id
  pub since :
      ((tx.inner.dirs ≡ base.dirs) × (walk base.dirs root_dir_id done ≡ some id))
      ⊎ ((walk base.dirs root_dir_id done ≡ none) × (largest_dir_id tx.inner.dirs ≤ id))

-- A step that failed keeps, and one that succeeded leads to the directory under the name.
abbrev pub Enters : CentralDb → List Text → (out : Fs0Result ℕ × CentralTx) → Type 0
Enters base done out =
    ((e : Fs0Error) × (out.0 ≡ err e) × IsKept base out.1)
    ⊎ ((id : ℕ) × (out.0 ≡ ok id) × IsUnder base done id out.1)

pub failed :
    (base : CentralDb) (done : List Text) (out : Fs0Result ℕ × CentralTx) (e : Fs0Error)
    (tx : CentralTx)
    → out ≡ (err e, tx)
    → IsKept base tx
    → Enters base done out
failed base done out e tx p k = inl (e, ap (λ o. o.0) p, rw p k)

pub entered :
    (base : CentralDb) (done : List Text) (out : Fs0Result ℕ × CentralTx) (id : ℕ) (tx : CentralTx)
    → out ≡ (ok id, tx)
    → IsUnder base done id tx
    → Enters base done out
entered base done out id tx p u = inr (id, ap (λ o. o.0) p, rw p u)

module _ (base : CentralDb) (done : List Text) (name : Text) (id : ℕ) where
  -- A path that the cache holds leads to an old directory.
  enter-cached :
      (tx : CentralTx) (next : ℕ)
      → IsUnder base done id tx
      → All IsName (done ++ (name ∷ []))
      → resolve base.dirs (dir_path (done ++ (name ∷ []))) ≡ ok next
      → IsUnder base (done ++ (name ∷ [])) next tx
  enter-cached tx next u h r =
      let w = walk_of_path base.dirs (done ++ (name ∷ [])) next h r in
      elim u.since [
        | inr (none_left, l) ↦
            absurd
              (ground (arith, w, walk-append_none base.dirs root_dir_id done (name ∷ []) none_left))
        | inl (same, w') ↦ record { kept = u.kept; led = rw same w; since = inl (same, w) }
      ]

  -- So does a row of the table.
  enter-found :
      (tx : CentralTx) (d : DirRow)
      → IsUnder base done id tx
      → find (is_child id name) tx.inner.dirs ≡ some d
      → (tx.inner.dirs ≡ base.dirs)
        × (walk base.dirs root_dir_id (done ++ (name ∷ [])) ≡ some d.dir_id)
  enter-found tx d u f = elim u.since [
    | inr (w, l) ↦ absurd (ground (arith, f, childless-tree tx.inner.dirs id name u.kept.tree l))
    | inl (same, w) ↦
        (same, walk-child base.dirs root_dir_id id done name (some d) w (rw same at f))
  ]

  -- A directory that is inserted is the last one.
  enter-inserted :
      (tx : CentralTx)
      → IsUnder base done id tx
      → IsName name
      → id ≤ largest_dir_id tx.inner.dirs
      → find (is_child id name) tx.inner.dirs ≡ none
      → IsUnder base
          (done ++ (name ∷ []))
          (largest_dir_id tx.inner.dirs + 1)
          (record tx { inner = with_dir id name tx.inner })
  enter-inserted tx u hn l f = record {
    kept = record {
      more = u.kept.more ++ (new_dir id name tx.inner.dirs ∷ []);
      grew =
          ap (λ (ds : List DirRow). ds ++ (new_dir id name tx.inner.dirs ∷ [])) u.kept.grew
          ∙ append_assoc base.dirs u.kept.more (new_dir id name tx.inner.dirs ∷ []);
      rest = ap (with_dir id name) u.kept.rest ∙ refl;
      told = u.kept.told;
      tree = IsTree-grown tx.inner.dirs id name u.kept.tree hn l f;
    };
    led =
        walk-child (grown tx.inner.dirs id name) root_dir_id id done name
          (some (new_dir id name tx.inner.dirs))
          (walk-grown tx.inner.dirs (new_dir id name tx.inner.dirs ∷ []) root_dir_id id done u.led)
          (find_child-grown tx.inner.dirs id name f);
    since = inr (
      lost,
      omega (arith, largest-grown tx.inner.dirs (new_dir id name tx.inner.dirs) (omega arith)),
    );
  }
    where
      lost : walk base.dirs root_dir_id (done ++ (name ∷ [])) ≡ none
      lost = elim u.since [
        | inr (w, k) ↦ walk-append_none base.dirs root_dir_id done (name ∷ []) w
        | inl (same, w) ↦ walk-child base.dirs root_dir_id id done name none w (rw same at f)
      ]

  select_or_insert-Enters :
      (tx : CentralTx)
      → IsUnder base done id tx
      → All IsName done
      → IsName name
      → Enters base
          (done ++ (name ∷ []))
          (select_or_insert id name (dir_path (done ++ (name ∷ []))) tx)
  unfolding select_or_insert
  select_or_insert-Enters tx u hd hn =
      let path : Text = dir_path (done ++ (name ∷ [])) in
      let out : Fs0Result ℕ × CentralTx = select_or_insert id name path tx in
      elim (column-cases id "parent_dir_id") [
        | inr (e, p) ↦ failed base (done ++ (name ∷ [])) out e tx (ground (arith, p)) u.kept
        | inl p ↦ elim (Option-cases (find (is_child id name) tx.inner.dirs)) [
          | inr (d, f) ↦
              let (same, w) = enter-found tx d u f in
              let told =
                remember-Tells (Resolves base.dirs) d.dir_id path tx.dir_cache u.kept.told (
                  walk-Resolves base.dirs (done ++ (name ∷ [])) d.dir_id
                    (All-append IsName done (name ∷ []) hd (hn, tt)) w) in
              entered base (done ++ (name ∷ [])) out d.dir_id
                (record tx { dir_cache = remember d.dir_id path tx.dir_cache })
                (ground (arith, p, f))
                (record {
                  kept = record {
                    more = u.kept.more;
                    grew = u.kept.grew;
                    rest = u.kept.rest;
                    told = told;
                    tree = u.kept.tree;
                  };
                  led = rw same w;
                  since = inl (same, w);
                })
          | inl f ↦ elim (insert_child-cases id name path tx.inner) [
            | inr (e, q) ↦
                failed base (done ++ (name ∷ [])) out e tx (ground (arith, p, f, q)) u.kept
            | inl (q, l) ↦
                entered base (done ++ (name ∷ [])) out (largest_dir_id tx.inner.dirs + 1)
                  (record tx { inner = with_dir id name tx.inner }) (ground (arith, p, f, q))
                  (enter-inserted tx u hn l f)
          ]
        ]
      ]

  pub enter_or_create-Enters :
      (tx : CentralTx)
      → IsUnder base done id tx
      → All IsName done
      → IsName name
      → Enters base
          (done ++ (name ∷ []))
          (enter_or_create id name (dir_path (done ++ (name ∷ []))) tx)
  unfolding enter_or_create
  enter_or_create-Enters tx u hd hn =
      let path : Text = dir_path (done ++ (name ∷ [])) in
      let c : DirCacheState = (get_id path tx.dir_cache).1 in
      let after : IsUnder base done id (record tx { dir_cache = c }) = record {
        kept = record {
          more = u.kept.more;
          grew = u.kept.grew;
          rest = u.kept.rest;
          told = get_id-Tells (Resolves base.dirs) path tx.dir_cache u.kept.told;
          tree = u.kept.tree;
        };
        led = u.led;
        since = u.since;
      } in
      elim (Option-cases (get_id path tx.dir_cache).0) [
        | inl f ↦ rw f (select_or_insert-Enters (record tx { dir_cache = c }) after hd hn)
        | inr (next, f) ↦
            entered base (done ++ (name ∷ [])) (enter_or_create id name path tx) next
              (record tx { dir_cache = c }) (ground (arith, f))
              (enter-cached (record tx { dir_cache = c }) next after
                (All-append IsName done (name ∷ []) hd (hn, tt))
                (get_id-told (Resolves base.dirs) path tx.dir_cache next (Resolves-root base.dirs)
                  u.kept.told f))
      ]
