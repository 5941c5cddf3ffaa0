-- ===== src/Central/Dirs/Reference.antt =====
-- The tree that the table of directories stores, without the cache: the reference for db/dir.rs.
use fs.Prelude.{
  ℕ, ◌≡◌, refl, ◌∙◌, inl, inr, Option, none, some, List, [], ◌∷◌, ◌++◌, arith, All, Option-cases,
}
use fs.Prelude.Rows.{find, find-append_some}
use fs.Core.Error.{Text, Fs0Result, ok, Result-cases, ok_or, not_found, ◌>>=◌}
use fs.Core.Paths.{root, split_fs0_path_components}
use fs.Core.Paths.Split.{IsName}
use fs.Core.Paths.Roundtrip.{dir_path, components-dir_path, components_sound}
use fs.Central.Types.{DirRow, root_dir_id}
use fs.Central.Dirs.{is_child}

-- Down from a directory by the names of its children.
unfoldable pub walk : List DirRow → ℕ → List Text → Option ℕ
walk dirs id [] = some id
walk dirs id (n ∷ ns) = elim (find (is_child id n) dirs) [
  | none ↦ none
  | some d ↦ walk dirs d.dir_id ns
]

-- The id of a path.
unfoldable pub resolve : List DirRow → Text → Fs0Result ℕ
unfolding walk
resolve dirs path = do
  names ← split_fs0_path_components path
  ok_or (walk dirs root_dir_id names) not_found

-- A path and an id may be paired in the cache when the path resolves to the id.
abbrev pub Resolves : List DirRow → Text → ℕ → Type 0
Resolves dirs path id = resolve dirs path ≡ ok id

pub walk-append :
    (dirs : List DirRow) (id mid : ℕ) (ns ms : List Text)
    → walk dirs id ns ≡ some mid
    → walk dirs id (ns ++ ms) ≡ walk dirs mid ms
unfolding walk
walk-append dirs id mid [] ms h = cc
walk-append dirs id mid (n ∷ ns) ms h = elim (Option-cases (find (is_child id n) dirs)) [
  | inl e ↦ absurd (ground (arith, e, h))
  | inr (d, e) ↦ ground (arith, e, h, walk-append dirs d.dir_id mid ns ms)
]

pub resolve-dir_path :
    (dirs : List DirRow) (ns : List Text)
    → All IsName ns
    → resolve dirs (dir_path ns) ≡ ok_or (walk dirs root_dir_id ns) not_found
unfolding resolve
resolve-dir_path dirs ns h = rw (components-dir_path ns h) refl

pub Resolves-root : (dirs : List DirRow) → Resolves dirs root root_dir_id
Resolves-root dirs = unfold dir_path walk in resolve-dir_path dirs [] tt

-- A path that resolves is the path of names that lead to the id.
pub Resolves-walk :
    (dirs : List DirRow) (path : Text) (id : ℕ)
    → Resolves dirs path id
    → (ns : List Text) × All IsName ns × (path ≡ dir_path ns) × (walk dirs root_dir_id ns ≡ some id)
Resolves-walk dirs path id h = elim (Result-cases (split_fs0_path_components path)) [
  | inr (e, p) ↦ absurd (unfold resolve in ground (arith, p, h))
  | inl (ns, p) ↦
      let (q, names) = components_sound path ns p in
      (ns, names, q, unfold resolve in ground (arith, p, h))
]

pub walk-Resolves :
    (dirs : List DirRow) (ns : List Text) (id : ℕ)
    → All IsName ns
    → walk dirs root_dir_id ns ≡ some id
    → Resolves dirs (dir_path ns) id
walk-Resolves dirs ns id h w = rw (resolve-dir_path dirs ns h, w) refl

-- New rows leave what resolves as it is.
pub walk-grown :
    (dirs more : List DirRow) (id end : ℕ) (ns : List Text)
    → walk dirs id ns ≡ some end
    → walk (dirs ++ more) id ns ≡ some end
unfolding walk
walk-grown dirs more id end [] h = h
walk-grown dirs more id end (n ∷ ns) h = elim (Option-cases (find (is_child id n) dirs)) [
  | inl e ↦ absurd (ground (arith, e, h))
  | inr (d, e) ↦ ground (
    arith,
    e,
    h,
    find-append_some (is_child id n) dirs more d e,
    walk-grown dirs more d.dir_id end ns,
  )
]

pub walk-append_none :
    (dirs : List DirRow) (id : ℕ) (ns ms : List Text)
    → walk dirs id ns ≡ none
    → walk dirs id (ns ++ ms) ≡ none
unfolding walk
walk-append_none dirs id [] ms h = cc
walk-append_none dirs id (n ∷ ns) ms h = elim (Option-cases (find (is_child id n) dirs)) [
  | inl e ↦ ground (arith, e)
  | inr (d, e) ↦ ground (arith, e, h, walk-append_none dirs d.dir_id ns ms)
]

pub walk-child :
    (dirs : List DirRow) (id mid : ℕ) (done : List Text) (name : Text) (o : Option DirRow)
    → walk dirs id done ≡ some mid
    → find (is_child mid name) dirs ≡ o
    → walk dirs id (done ++ (name ∷ [])) ≡ elim o [ none ↦ none | some d ↦ some d.dir_id ]
unfolding walk
walk-child dirs id mid done name none w f =
    walk-append dirs id mid done (name ∷ []) w ∙ ground (arith, f)
walk-child dirs id mid done name (some d) w f =
    walk-append dirs id mid done (name ∷ []) w ∙ ground (arith, f)

-- A path of names that resolves is one that the names lead to.
pub walk_of_path :
    (dirs : List DirRow) (ns : List Text) (id : ℕ)
    → All IsName ns
    → Resolves dirs (dir_path ns) id
    → walk dirs root_dir_id ns ≡ some id
walk_of_path dirs ns id h r = elim (Option-cases (walk dirs root_dir_id ns)) [
  | inl e ↦ absurd (ground (arith, e, r, resolve-dir_path dirs ns h))
  | inr (m, e) ↦ ground (arith, e, r, resolve-dir_path dirs ns h)
]

pub Resolves-grown :
    (dirs more : List DirRow) (path : Text) (id : ℕ)
    → Resolves dirs path id
    → Resolves (dirs ++ more) path id
Resolves-grown dirs more path id r =
    let (ns, names, p, w) = Resolves-walk dirs path id r in
    rw p (walk-Resolves (dirs ++ more) ns id names (walk-grown dirs more root_dir_id id ns w))
