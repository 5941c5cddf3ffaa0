-- ===== src/Core/Paths/Roundtrip.antt =====
-- Splitting and joining paths are inverse.
use fs.Prelude.{
  ℕ, ◌≡◌, refl, sym, ap, ◌∙◌, true, false, List, [], ◌∷◌, ◌++◌, arith, any, All, All-append, inl,
  inr, Bool-cases, Option-cases, some, bytes_eq, bytes_eq_iff, if◌then◌else◌,
}
use mathlib.Core.Path.{subst}
use mathlib.Core.List.{append-nil, append_assoc}
use fs.Core.Error.{Text, ok}
use fs.Core.Paths.{
  slash, root, split, starts_with_slash, ends_with_slash, contains_slash, contains_double_slash,
  rsplit_once, is_bad_component, is_dots, is_empty, split_fs0_path_dir_and_name, join_fs0_path,
  split_fs0_path_components,
}
use fs.Core.Paths.Split.{
  render, IsName, render-split, split-render, split-whole, split-filled, double_slash-render,
  rsplit_once-append, rsplit_once_sound, ends_with_slash-append, names_of, names_of_fit,
  fit_of_names, dots_of_names, whole_of_names, render-append,
}

-- The path of the directory with these components.
unfoldable pub dir_path : List Text → Text
unfolding render
dir_path [] = root
dir_path (t ∷ ts) = render (t ∷ ts)

render-ne-root : (t : Text) (ts : List Text) → IsName t → bytes_eq (render (t ∷ ts)) root ≡ false
unfolding render bytes_eq is_bad_component
render-ne-root [] ts h = ground (arith, h.fits)
render-ne-root (c ∷ cs) ts h = ground arith

-- The path of any list of names splits into those names.
pub components-dir_path :
    (ts : List Text) → All IsName ts → split_fs0_path_components (dir_path ts) ≡ ok ts
unfolding split_fs0_path_components dir_path bytes_eq
components-dir_path [] h = ground arith
components-dir_path (t ∷ ts) h = ground (
  arith,
  render-ne-root t ts h.0,
  split-render t ts h.0.whole (whole_of_names ts h.1),
  fit_of_names (t ∷ ts) h,
)

-- Only the path of a list of names splits, and it splits into those names.
pub components_sound :
    (path : Text) (ts : List Text)
    → split_fs0_path_components path ≡ ok ts
    → (path ≡ dir_path ts) × All IsName ts
unfolding split_fs0_path_components dir_path
components_sound [] ts h = cc
components_sound (c ∷ cs) ts h = elim (Bool-cases (bytes_eq (c ∷ cs) root)) [
  | inl e ↦ at_root (ground (arith, e, h)) ((bytes_eq_iff (c ∷ cs) root).0 e)
  | inr e ↦
      below (split cs) (ground arith) (ground arith) (render-split cs) (split-whole cs)
        (ground arith)
]
  where
    at_root : ts ≡ [] → c ∷ cs ≡ root → (c ∷ cs ≡ dir_path ts) × All IsName ts
    at_root e p = rw e (p, tt)

    below :
        (us : List Text)
        → ts ≡ us
        → any is_bad_component us ≡ false
        → render us ≡ slash ∷ cs
        → All (λ u. contains_slash u ≡ false) us
        → c ≡ slash
        → (c ∷ cs ≡ dir_path ts) × All IsName ts
    below [] e b r w s = cc
    below (u ∷ us) e b r w s = rw e (cc, names_of_fit (u ∷ us) b w)

abbrev pub file_path : List Text → Text → Text
file_path ts n = render ts ++ (slash ∷ n)

IsName-filled : (n : Text) → IsName n → is_empty n ≡ false
unfolding is_bad_component
IsName-filled n h = ground (arith, h.fits)

IsName-plain : (n : Text) → IsName n → is_dots n ≡ false
unfolding is_bad_component
IsName-plain n h = ground (arith, h.fits)

file_path-starts : (ts : List Text) (n : Text) → starts_with_slash (file_path ts n) ≡ true
unfolding starts_with_slash render
file_path-starts [] n = refl
file_path-starts (t ∷ ts) n = refl

file_path-ends : (ts : List Text) (n : Text) → IsName n → ends_with_slash (file_path ts n) ≡ false
unfolding is_bad_component
file_path-ends ts [] h = ground (arith, h.fits)
file_path-ends ts (x ∷ n) h =
    rw (← append_assoc (render ts) (slash ∷ []) (x ∷ n))
      (ends_with_slash-append (render ts ++ (slash ∷ [])) x n h.whole)

file_path-single :
    (ts : List Text) (n : Text)
    → All IsName ts
    → IsName n
    → contains_double_slash (file_path ts n) ≡ false
unfolding render
file_path-single ts n h hn =
    rw (file_path_render ts n)
      (double_slash-render [] (ts ++ (n ∷ [])) refl (All-append IsName ts (n ∷ []) h (hn, tt)))
  where
    file_path_render : (ts : List Text) (n : Text) → file_path ts n ≡ render (ts ++ (n ∷ []))
    file_path_render ts n = rw (render-append ts (n ∷ [])) (rw (append-nil n))

dots_of_render : (ts : List Text) → All IsName ts → any is_dots (split (render ts)) ≡ false
unfolding render split is_dots bytes_eq
dots_of_render [] h = refl
dots_of_render (t ∷ ts) h =
    ground (arith, split-render t ts h.0.whole (whole_of_names ts h.1), dots_of_names (t ∷ ts) h)

dir_of_render : (ts : List Text) → (if is_empty (render ts) then root else render ts) ≡ dir_path ts
unfolding render dir_path
dir_of_render [] = refl
dir_of_render (t ∷ ts) = refl

-- The path of a file in a directory of names splits into the directory's path and the file's name.
pub dir_and_name-file_path :
    (ts : List Text) (n : Text)
    → All IsName ts
    → IsName n
    → split_fs0_path_dir_and_name (file_path ts n) ≡ ok (dir_path ts, n)
unfolding split_fs0_path_dir_and_name
dir_and_name-file_path ts n h hn = ground (
  arith,
  file_path-starts ts n,
  file_path-ends ts n hn,
  file_path-single ts n h hn,
  rsplit_once-append (render ts) n hn.whole,
  hn.whole,
  IsName-filled n hn,
  IsName-plain n hn,
  dots_of_render ts h,
  dir_of_render ts,
)

join-dir_path :
    (ts : List Text) (n : Text)
    → All IsName ts
    → join_fs0_path (dir_path ts) n ≡ ok (file_path ts n)
unfolding join_fs0_path dir_path bytes_eq
join-dir_path [] n h = unfold render in refl
join-dir_path (t ∷ ts) n h = rw (render-ne-root t ts h.0) refl

dir_path-append : (ts : List Text) (n : Text) → dir_path (ts ++ (n ∷ [])) ≡ render (ts ++ (n ∷ []))
unfolding dir_path
dir_path-append [] n = refl
dir_path-append (t ∷ ts) n = refl

-- Joining a name to the path of a directory gives the path of the directory below.
pub join-child_path :
    (ts : List Text) (n : Text)
    → All IsName ts
    → join_fs0_path (dir_path ts) n ≡ ok (dir_path (ts ++ (n ∷ [])))
join-child_path ts n h =
    rw (join-dir_path ts n h, dir_path-append ts n, render-append ts (n ∷ []))
      (unfold render in rw (append-nil n) refl)

-- What a successful split says of the parent, as the code computes it, and of the name.
abbrev pub Splits : Text → Text → Text → Type 0
Splits path d n =
    (ts : List Text) × All IsName ts × IsName n × (d ≡ dir_path ts) × (path ≡ file_path ts n)

dir_path-filled : (ts : List Text) (x : ℕ) (cs : Text) → render ts ≡ x ∷ cs → dir_path ts ≡ x ∷ cs
unfolding render dir_path
dir_path-filled [] x cs e = cc
dir_path-filled (t ∷ ts) x cs e = e

is_dots-split :
    (cs : Text) → any is_dots (split (slash ∷ cs)) ≡ false → any is_dots (split cs) ≡ false
unfolding split
is_dots-split cs h = ground arith

below_slash :
    (c : ℕ) (cs n : Text)
    → slash ≡ c
    → contains_double_slash (c ∷ (cs ++ (slash ∷ n))) ≡ false
    → any is_dots (split (c ∷ cs)) ≡ false
    → All IsName (split cs)
below_slash c cs n e b d =
    names_of (split cs) (split-filled cs n (subst single (sym e) b))
      (is_dots-split cs (subst dotless (sym e) d)) (split-whole cs)
  where
    single : ℕ → Type 0
    single x = contains_double_slash (x ∷ (cs ++ (slash ∷ n))) ≡ false

    dotless : ℕ → Type 0
    dotless x = any is_dots (split (x ∷ cs)) ≡ false

parent-names :
    (p n : Text)
    → starts_with_slash (p ++ (slash ∷ n)) ≡ true
    → contains_double_slash (p ++ (slash ∷ n)) ≡ false
    → any is_dots (split p) ≡ false
    → IsName n
    → Splits (p ++ (slash ∷ n)) (if is_empty p then root else p) n
unfolding starts_with_slash
parent-names [] n a b d hn = ([], tt, hn, unfold dir_path in refl, unfold render in refl)
parent-names (c ∷ cs) n a b d hn =
    let e : slash ≡ c = ground arith in
    (
      split cs,
      below_slash c cs n e b d,
      hn,
      sym (dir_path-filled (split cs) c cs (render-split cs ∙ ap (λ (x : ℕ). x ∷ cs) e)),
      ap (λ (t : Text). t ++ (slash ∷ n)) (sym (render-split cs ∙ ap (λ (x : ℕ). x ∷ cs) e)),
    )

-- The facts that the guards of the code have checked when it succeeds.
abbrev Checked : Text → Text → Text → Text → Text → Type 0
Checked path p n d m =
    (starts_with_slash path ≡ true)
    × (contains_double_slash path ≡ false)
    × (any is_dots (split p) ≡ false)
    × (is_empty n ≡ false)
    × (is_dots n ≡ false)
    × ((if is_empty p then root else p) ≡ d)
    × (n ≡ m)

dir_and_name-Checked :
    (path p n d m : Text)
    → rsplit_once path ≡ some (p, n)
    → split_fs0_path_dir_and_name path ≡ ok (d, m)
    → Checked path p n d m
unfolding split_fs0_path_dir_and_name
dir_and_name-Checked path p n d m r h = ground arith

dir_and_name-parts :
    (path p n d m : Text)
    → path ≡ p ++ (slash ∷ n)
    → contains_slash n ≡ false
    → Checked path p n d m
    → Splits path d m
unfolding is_bad_component
dir_and_name-parts path p n d m e w (a, b, c, f, g, x, y) =
    rw (← y, ← x, e)
      (parent-names p n (rw e at a) (rw e at b) c (record { fits = ground arith; whole = w }))

-- Only the path of a file in a directory of names splits.
pub dir_and_name_sound :
    (path d n : Text) → split_fs0_path_dir_and_name path ≡ ok (d, n) → Splits path d n
dir_and_name_sound path d n h = elim (Option-cases (rsplit_once path)) [
  | inl e ↦ absurd (unfold split_fs0_path_dir_and_name in ground arith)
  | inr ((p, m), e) ↦
      let s = rsplit_once_sound path p m e in
      dir_and_name-parts path p m d n s.0 s.1 (dir_and_name-Checked path p m d n e h)
]

-- Splitting a path into directory and name is undone by joining, and the directory that it gives is
-- a path that splits into components.
pub join-split_fs0_path :
    (path d n : Text)
    → split_fs0_path_dir_and_name path ≡ ok (d, n)
    → (join_fs0_path d n ≡ ok path)
      × ((ts : List Text) × (split_fs0_path_components d ≡ ok ts) × All IsName ts)
join-split_fs0_path path d n h =
    let (ts, names, hn, e, f) = dir_and_name_sound path d n h in
    (rw (e, f) (join-dir_path ts n names), (ts, rw e (components-dir_path ts names), names))
