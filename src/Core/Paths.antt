-- ===== src/Core/Paths.antt =====
-- The paths of crates/fs0-core/src/utils.rs: absolute, with components between slashes. A text is
-- its bytes; 47 is '/' and 46 is '.'. The laws are in the modules below.
pub mod Split
pub mod Roundtrip
use fs.Prelude.{
  ℕ, Bool, true, false, ◌&&◌, ◌||◌, not, Option, none, some, List, [], ◌∷◌, ◌++◌, any, num_eq,
  bytes_eq, if◌then◌else◌,
}
use fs.Core.Error.{Text, Fs0Result, ok, err, invalid_path, reject, ok_or, ◌>>=◌, ◌>>◌}

abbrev pub slash : ℕ
slash = b'/'

abbrev pub is_slash : ℕ → Bool
is_slash c = num_eq c slash

-- `path.starts_with('/')`
unfoldable pub starts_with_slash : Text → Bool
starts_with_slash [] = false
starts_with_slash (c ∷ cs) = is_slash c

-- `path.ends_with('/')`
unfoldable pub ends_with_slash : Text → Bool
ends_with_slash [] = false
ends_with_slash (c ∷ []) = is_slash c
ends_with_slash (c ∷ d ∷ cs) = ends_with_slash (d ∷ cs)

-- `path.contains("//")`
unfoldable pub contains_double_slash : Text → Bool
unfolding starts_with_slash
contains_double_slash [] = false
contains_double_slash (c ∷ cs) = (is_slash c && starts_with_slash cs) || contains_double_slash cs

-- `name.contains('/')`
abbrev pub contains_slash : Text → Bool
contains_slash = any is_slash

-- `path.rsplit_once('/')`
unfoldable pub rsplit_once : Text → Option (Text × Text)
rsplit_once [] = none
rsplit_once (c ∷ cs) = elim (rsplit_once cs) [
  | some (before, after) ↦ some (c ∷ before, after)
  | none ↦ if is_slash c then some ([], cs) else none
]

-- `path.split('/')`
abbrev pub onto_head : ℕ → List Text → List Text
onto_head c [] = (c ∷ []) ∷ []
onto_head c (t ∷ ts) = (c ∷ t) ∷ ts

unfoldable pub split : Text → List Text
split [] = [] ∷ []
split (c ∷ cs) = let rest = split cs in if is_slash c then [] ∷ rest else onto_head c rest

abbrev pub is_empty : Text → Bool
is_empty [] = true
is_empty (c ∷ cs) = false

-- `name == "." || name == ".."`
unfoldable pub is_dots : Text → Bool
is_dots t = bytes_eq t (b'.' ∷ []) || bytes_eq t (b'.' ∷ b'.' ∷ [])

abbrev pub root : Text
root = slash ∷ []

unfoldable pub split_fs0_path_dir_and_name : Text → Fs0Result (Text × Text)
unfolding starts_with_slash ends_with_slash contains_double_slash rsplit_once split is_dots
split_fs0_path_dir_and_name path = do
  reject (not (starts_with_slash path) || ends_with_slash path || contains_double_slash path)
      (invalid_path path)
  (parent, name) ← ok_or (rsplit_once path) (invalid_path path)
  reject (is_empty name || is_dots name || contains_slash name) (invalid_path path)
  reject (any is_dots (split parent)) (invalid_path path)
  ok (if is_empty parent then root else parent, name)

unfoldable pub join_fs0_path : Text → Text → Fs0Result Text
join_fs0_path dir name = if bytes_eq dir root then ok (slash ∷ name) else ok (dir ++ (slash ∷ name))

-- `path[1..]`
abbrev pub tail : Text → Text
tail [] = []
tail (c ∷ cs) = cs

-- A component that a directory path may not have.
unfoldable pub is_bad_component : Text → Bool
unfolding is_dots
is_bad_component t = is_empty t || is_dots t

unfoldable pub split_fs0_path_components : Text → Fs0Result (List Text)
unfolding starts_with_slash split is_bad_component
split_fs0_path_components path = do
  reject (not (starts_with_slash path)) (invalid_path path)
  if bytes_eq path root
      then ok []
      else if any is_bad_component (split (tail path))
      then err (invalid_path path)
      else ok (split (tail path))
