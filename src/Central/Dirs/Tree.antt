-- ===== src/Central/Dirs/Tree.antt =====
-- The table of directories of db/dir.rs as a tree: what it keeps when a directory is inserted.
use fs.Prelude.{
  ℕ, ◌+◌, ◌<◌, ◌≤◌, ◌≡◌, refl, ◌⊎◌, inl, inr, true, false, none, some, List, [], ◌∷◌, ◌++◌, arith,
  any, All, All-imp, All-append, bytes_eq_iff,
}
use fs.Prelude.Rows.{find, find-append_some, find-append_none}
use fs.Core.Error.{Text}
use fs.Core.Paths.Split.{IsName}
use fs.Central.Types.{DirRow, root_dir_id, root_dir}
use fs.Central.Dirs.{has_dir_id, parent_is, is_child, largest_dir_id, new_dir}

-- A directory below another one, which its name leads to from there.
pub record IsBelow (dirs : List DirRow) (d : DirRow) : Type 0 where
  pub parent : ℕ
  pub has_parent : d.parent_dir_id ≡ some parent
  pub above : parent < d.dir_id
  pub named : IsName d.name
  pub led : find (is_child parent d.name) dirs ≡ some d

-- A row is found by its id, and is the root or below a directory with a smaller id.
pub record IsRow (dirs : List DirRow) (d : DirRow) : Type 0 where
  pub found : find (has_dir_id d.dir_id) dirs ≡ some d
  pub placed : (d ≡ root_dir) ⊎ IsBelow dirs d

unfoldable pub IsTree : List DirRow → Type 0
IsTree dirs = All (IsRow dirs) dirs × (find (has_dir_id root_dir_id) dirs ≡ some root_dir)

largest-All : (dirs : List DirRow) → All (λ d. d.dir_id ≤ largest_dir_id dirs) dirs
unfolding largest_dir_id
largest-All [] = tt
largest-All (d ∷ ds) = (omega arith, All-imp _ _ ds (λ e k. omega (arith, k)) (largest-All ds))

pub any-largest :
    (id : ℕ) (dirs : List DirRow) → any (has_dir_id id) dirs ≡ true → id ≤ largest_dir_id dirs
unfolding largest_dir_id
any-largest id [] h = absurd (ground (arith, h))
any-largest id (d ∷ ds) h = ground (arith, h, any-largest id ds)

find_id-above :
    (n : ℕ) (dirs : List DirRow) → All (λ d. d.dir_id < n) dirs → find (has_dir_id n) dirs ≡ none
unfolding find
find_id-above n [] h = refl
find_id-above n (d ∷ ds) h = grind (arith, h.0, find_id-above n ds h.1)

find_child-above :
    (n : ℕ) (name : Text) (dirs : List DirRow)
    → All (λ d. parent_is n d.parent_dir_id ≡ false) dirs
    → find (is_child n name) dirs ≡ none
unfolding find
find_child-above n name [] h = refl
find_child-above n name (d ∷ ds) h = ground (arith, h.0, find_child-above n name ds h.1)

-- A directory has no child whose id is not larger.
row-orphan :
    (dirs : List DirRow) (n : ℕ) (d : DirRow)
    → IsRow dirs d
    → d.dir_id ≤ n
    → parent_is n d.parent_dir_id ≡ false
row-orphan dirs n d r h = elim r.placed [
  | inl e ↦ rw e refl
  | inr b ↦ rw b.has_parent (ground (arith, b.above, h))
]

pub childless-tree :
    (dirs : List DirRow) (n : ℕ) (name : Text)
    → IsTree dirs
    → largest_dir_id dirs ≤ n
    → find (is_child n name) dirs ≡ none
unfolding IsTree
childless-tree dirs n name t h = find_child-above n name dirs (both dirs t.0 (largest-All dirs))
  where
    both :
        (ds : List DirRow)
        → All (IsRow dirs) ds
        → All (λ d. d.dir_id ≤ largest_dir_id dirs) ds
        → All (λ d. parent_is n d.parent_dir_id ≡ false) ds
    both [] r l = tt
    both (d ∷ ds) r l = (row-orphan dirs n d r.0 (omega (arith, l.0, h)), both ds r.1 l.1)

pub largest-grown :
    (dirs : List DirRow) (d : DirRow)
    → largest_dir_id dirs ≤ d.dir_id
    → largest_dir_id (dirs ++ (d ∷ [])) ≡ d.dir_id
unfolding largest_dir_id
largest-grown [] d h = omega arith
largest-grown (x ∷ xs) d h = omega (arith, h, largest-grown xs d (omega (arith, h)))

module _ (dirs : List DirRow) (parent : ℕ) (name : Text) where
  abbrev pub grown : List DirRow
  grown = dirs ++ (new_dir parent name dirs ∷ [])

  IsBelow-grown : (d : DirRow) → IsBelow dirs d → IsBelow grown d
  IsBelow-grown d b = record {
    parent = b.parent;
    has_parent = b.has_parent;
    above = b.above;
    named = b.named;
    led = find-append_some (is_child b.parent d.name) dirs _ d b.led;
  }

  IsRow-grown : (d : DirRow) → IsRow dirs d → IsRow grown d
  IsRow-grown d r = record {
    found = find-append_some (has_dir_id d.dir_id) dirs _ d r.found;
    placed = elim r.placed [ inl e ↦ inl e | inr b ↦ inr (IsBelow-grown d b) ];
  }

  pub find_child-grown :
      find (is_child parent name) dirs ≡ none
      → find (is_child parent name) grown ≡ some (new_dir parent name dirs)
  unfolding find
  find_child-grown e = ground (
    arith,
    find-append_none (is_child parent name) dirs (new_dir parent name dirs ∷ []) e,
    (bytes_eq_iff name name).1 refl,
  )

  find_id-grown :
      find (has_dir_id (largest_dir_id dirs + 1)) grown ≡ some (new_dir parent name dirs)
  unfolding find
  find_id-grown =
      let old =
        find_id-above (largest_dir_id dirs + 1) dirs
          (All-imp _ _ dirs (λ d k. omega (arith, k)) (largest-All dirs)) in
      ground (
        arith,
        find-append_none (has_dir_id (largest_dir_id dirs + 1)) dirs (new_dir parent name dirs ∷ [])
            old,
      )

  -- Inserting a directory under a name that is free keeps the tree.
  pub IsTree-grown :
      IsTree dirs
      → IsName name
      → parent ≤ largest_dir_id dirs
      → find (is_child parent name) dirs ≡ none
      → IsTree grown
  unfolding IsTree
  IsTree-grown t hn h e = (
    All-append (IsRow grown) dirs _ (All-imp (IsRow dirs) (IsRow grown) dirs IsRow-grown t.0)
        (new_row, tt),
    find-append_some (has_dir_id root_dir_id) dirs _ root_dir t.1,
  )
    where
      new_row : IsRow grown (new_dir parent name dirs)
      new_row = record {
        found = find_id-grown;
        placed = inr (record {
          parent = parent;
          has_parent = refl;
          above = omega (arith, h);
          named = hn;
          led = find_child-grown e;
        });
      }
