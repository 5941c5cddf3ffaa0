-- ===== src/Central/Dirs/Cache.antt =====
-- The cache of crates/fs0-central/src/db/dir.rs against what its entries are to say.
use fs.Prelude.{
  ℕ, ◌-◌, ◌≡◌, true, false, ◌||◌, some, List, [], ◌∷◌, arith, All, All-append, All-imp, length,
  take, leb, num_eq, bytes_eq, bytes_eq_iff, num_eq_iff, inl, inr, Bool-cases, Option-cases,
}
use fs.Prelude.Rows.{find, delete, order_by, find-All, find-where, delete-All, update-All}
use mathlib.Core.Path.{subst}
use fs.Core.Error.{Text}
use fs.Core.Paths.{root}
use fs.Central.Types.{root_dir_id}
use fs.Central.Dirs.{
  DirCacheEntry, IdPath, DirCacheState, new_cache, has_path, has_cached_id, last_access_of, bump,
  touch_path, get_id, get_path, drop_entry, drop_entries, insert_both, trim, remember, forget,
  dir_cache_max_entries, dir_cache_trim_to_entries,
}

-- Each entry of the two maps pairs a path with an id that it may be paired with.
unfoldable pub Tells : (Text → ℕ → Type 0) → DirCacheState → Type 0
Tells P c = All (λ e. P e.path e.dir_id) c.path_to_entry × All (λ e. P e.path e.dir_id) c.id_to_path

module _ (P : Text → ℕ → Type 0) where
  pub Tells-new : Tells P new_cache
  unfolding Tells
  Tells-new = (tt, tt)

  bump-Tells : (c : DirCacheState) → Tells P c → Tells P (bump c)
  unfolding Tells
  bump-Tells c h = h

  touch-Tells :
      (path : Text) (access : ℕ) (c : DirCacheState)
      → Tells P c
      → Tells P (touch_path path access c)
  unfolding Tells
  touch-Tells path access c h = (
    update-All (λ e. P e.path e.dir_id) (has_path path) (λ e. record e { last_access = access })
        c.path_to_entry (λ e k. k) h.0,
    h.1,
  )

  pub get_id-Tells : (path : Text) (c : DirCacheState) → Tells P c → Tells P (get_id path c).1
  unfolding get_id
  get_id-Tells path c h = elim (Bool-cases (bytes_eq path root)) [
    | inl e ↦ rw e h
    | inr e ↦ elim (Option-cases (find (has_path path) c.path_to_entry)) [
      | inl f ↦ rw (e, f) (bump-Tells c h)
      | inr (x, f) ↦ rw (e, f) (touch-Tells path c.next_access (bump c) (bump-Tells c h))
    ]
  ]

  pub get_path-Tells : (id : ℕ) (c : DirCacheState) → Tells P c → Tells P (get_path id c).1
  unfolding get_path
  get_path-Tells id c h = elim (Bool-cases (num_eq id root_dir_id)) [
    | inl e ↦ rw e h
    | inr e ↦ elim (Option-cases (find (has_cached_id id) c.id_to_path)) [
      | inl f ↦ rw (e, f) h
      | inr (x, f) ↦ rw (e, f) (touch-Tells x.path c.next_access (bump c) (bump-Tells c h))
    ]
  ]

  entry-Tells :
      (path : Text) (es : List DirCacheEntry) (x : DirCacheEntry)
      → find (has_path path) es ≡ some x
      → All (λ e. P e.path e.dir_id) es
      → P path x.dir_id
  entry-Tells path es x f h =
      subst (λ (p : Text). P p x.dir_id)
        ((bytes_eq_iff x.path path).0 (find-where (has_path path) es x f))
        (find-All (λ e. P e.path e.dir_id) (has_path path) es x f h)

  -- What the cache says of a path is so.
  pub get_id-told :
      (path : Text) (c : DirCacheState) (id : ℕ)
      → P root root_dir_id
      → Tells P c
      → (get_id path c).0 ≡ some id
      → P path id
  unfolding get_id Tells
  get_id-told path c id r h e = elim (Bool-cases (bytes_eq path root)) [
    | inl p ↦ rw ((bytes_eq_iff path root).0 p, root_id p) r
    | inr p ↦ elim (Option-cases (find (has_path path) c.path_to_entry)) [
      | inl f ↦ absurd (ground (arith, p, f, e))
      | inr (x, f) ↦ rw (same_id p x f) (entry-Tells path c.path_to_entry x f h.0)
    ]
  ]
    where
      root_id : bytes_eq path root ≡ true → id ≡ root_dir_id
      root_id p = ground (arith, p, e)

      same_id :
          bytes_eq path root ≡ false
          → (x : DirCacheEntry) → find (has_path path) c.path_to_entry ≡ some x
          → id ≡ x.dir_id
      same_id p x f = ground (arith, p, f, e)

  pub get_path-told :
      (id : ℕ) (c : DirCacheState) (path : Text)
      → P root root_dir_id
      → Tells P c
      → (get_path id c).0 ≡ some path
      → P path id
  unfolding get_path Tells
  get_path-told id c path r h e = elim (Bool-cases (num_eq id root_dir_id)) [
    | inl p ↦ rw ((num_eq_iff id root_dir_id).0 p, root_path p) r
    | inr p ↦ elim (Option-cases (find (has_cached_id id) c.id_to_path)) [
      | inl f ↦ absurd (ground (arith, p, f, e))
      | inr (x, f) ↦
          rw
            (
              same_path p x f,
              ← (num_eq_iff x.dir_id id).0 (find-where (has_cached_id id) c.id_to_path x f),
            )
            (find-All (λ e. P e.path e.dir_id) (has_cached_id id) c.id_to_path x f h.1)
    ]
  ]
    where
      root_path : num_eq id root_dir_id ≡ true → path ≡ root
      root_path p = ground (arith, p, e)

      same_path :
          num_eq id root_dir_id ≡ false
          → (x : IdPath) → find (has_cached_id id) c.id_to_path ≡ some x
          → path ≡ x.path
      same_path p x f = ground (arith, p, f, e)

  drop_entry-Tells :
      (id : ℕ) (path : Text) (c : DirCacheState) → Tells P c → Tells P (drop_entry id path c)
  unfolding Tells
  drop_entry-Tells id path c h = (
    delete-All (λ e. P e.path e.dir_id) (has_path path) c.path_to_entry h.0,
    delete-All (λ e. P e.path e.dir_id) (has_cached_id id) c.id_to_path h.1,
  )

  drop_entries-Tells :
      (es : List DirCacheEntry) (c : DirCacheState) → Tells P c → Tells P (drop_entries es c)
  unfolding drop_entries
  drop_entries-Tells [] c h = h
  drop_entries-Tells (e ∷ es) c h =
      drop_entries-Tells es (drop_entry e.dir_id e.path c) (drop_entry-Tells e.dir_id e.path c h)

  pub forget-Tells :
      (id : ℕ) (path : Text) (c : DirCacheState) → Tells P c → Tells P (forget id path c)
  unfolding forget
  forget-Tells id path c h = elim (Bool-cases (num_eq id root_dir_id || bytes_eq path root)) [
    | inl e ↦ rw e h
    | inr e ↦ rw e (drop_entry-Tells id path c h)
  ]

  insert_both-Tells :
      (id : ℕ) (path : Text) (c : DirCacheState)
      → Tells P c
      → P path id
      → Tells P (insert_both id path c)
  unfolding Tells
  insert_both-Tells id path c h k =
      let d = drop_entry-Tells id path c h in
      (
        All-append (λ e. P e.path e.dir_id) (delete (has_path path) c.path_to_entry) _ d.0 (k, tt),
        All-append (λ e. P e.path e.dir_id) (delete (has_cached_id id) c.id_to_path) _ d.1 (k, tt),
      )

  trim-Tells : (c : DirCacheState) → Tells P c → Tells P (trim c)
  unfolding trim
  trim-Tells c h = elim (Bool-cases (leb (length c.path_to_entry) dir_cache_max_entries)) [
    | inl e ↦ rw e h
    | inr e ↦ rw e (
        drop_entries-Tells
          (take (length c.path_to_entry - dir_cache_trim_to_entries)
            (order_by last_access_of c.path_to_entry))
          c h)
  ]

  -- A pair that may be in the cache can be remembered.
  pub remember-Tells :
      (id : ℕ) (path : Text) (c : DirCacheState)
      → Tells P c
      → P path id
      → Tells P (remember id path c)
  unfolding remember
  remember-Tells id path c h k = elim (Bool-cases (num_eq id root_dir_id || bytes_eq path root)) [
    | inl e ↦ rw e h
    | inr e ↦ rw e (trim-Tells (insert_both id path c) (insert_both-Tells id path c h k))
  ]

-- What the entries may say can grow.
pub Tells-imp :
    (P Q : Text → ℕ → Type 0) (c : DirCacheState)
    → ((path : Text) (id : ℕ) → P path id → Q path id)
    → Tells P c
    → Tells Q c
unfolding Tells
Tells-imp P Q c f h = (
  All-imp (λ e. P e.path e.dir_id) (λ e. Q e.path e.dir_id) c.path_to_entry (λ e. f e.path e.dir_id)
      h.0,
  All-imp (λ e. P e.path e.dir_id) (λ e. Q e.path e.dir_id) c.id_to_path (λ e. f e.path e.dir_id)
      h.1,
)
