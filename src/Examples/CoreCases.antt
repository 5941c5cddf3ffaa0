-- ===== src/Examples/CoreCases.antt =====
-- The theorems on paths and conversions at concrete values.
use fs.Prelude.{ℕ, zero, suc, ◌<◌, ◌≡◌, refl, List, [], ◌∷◌, All, arith, bytes_eq}
use fs.Core.Hash.{HashId, IsHash}
use fs.Core.Error.{Text, ok}
use fs.Core.Paths.{
  is_bad_component, split_fs0_path_components, split_fs0_path_dir_and_name, join_fs0_path,
}
use fs.Core.Paths.Split.{IsName}
use fs.Core.Paths.Roundtrip.{
  dir_path, file_path, Splits, components-dir_path, components_sound, dir_and_name-file_path,
  dir_and_name_sound, join-split_fs0_path,
}

-- "a", "bc" and "/a/bc"
abbrev a_name : Text
a_name = 97 ∷ []

abbrev bc_name : Text
bc_name = 98 ∷ 99 ∷ []

abbrev a_bc_path : Text
a_bc_path = 47 ∷ 97 ∷ 47 ∷ 98 ∷ 99 ∷ []

a-IsName : IsName a_name
unfolding bytes_eq is_bad_component
a-IsName = record { fits = refl; whole = refl }

bc-IsName : IsName bc_name
unfolding bytes_eq is_bad_component
bc-IsName = record { fits = refl; whole = refl }

components-dir_path_example :
    split_fs0_path_components (dir_path (a_name ∷ bc_name ∷ [])) ≡ ok (a_name ∷ bc_name ∷ [])
components-dir_path_example =
    components-dir_path (a_name ∷ bc_name ∷ []) (a-IsName, (bc-IsName, tt))

components_sound_example :
    (a_bc_path ≡ dir_path (a_name ∷ bc_name ∷ [])) × All IsName (a_name ∷ bc_name ∷ [])
unfolding split_fs0_path_components bytes_eq
components_sound_example = components_sound a_bc_path (a_name ∷ bc_name ∷ []) refl

dir_and_name-file_path_example :
    split_fs0_path_dir_and_name (file_path (a_name ∷ []) bc_name)
    ≡ ok (dir_path (a_name ∷ []), bc_name)
dir_and_name-file_path_example =
    dir_and_name-file_path (a_name ∷ []) bc_name (a-IsName, tt) bc-IsName

dir_and_name_sound_example : Splits a_bc_path (47 ∷ 97 ∷ []) bc_name
unfolding split_fs0_path_dir_and_name bytes_eq
dir_and_name_sound_example = dir_and_name_sound a_bc_path (47 ∷ 97 ∷ []) bc_name refl

join-split_fs0_path_example :
    (join_fs0_path (47 ∷ 97 ∷ []) bc_name ≡ ok a_bc_path)
    × ((ts : List Text) × (split_fs0_path_components (47 ∷ 97 ∷ []) ≡ ok ts) × All IsName ts)
unfolding split_fs0_path_dir_and_name bytes_eq
join-split_fs0_path_example = join-split_fs0_path a_bc_path (47 ∷ 97 ∷ []) bc_name refl

zeros : ℕ → List ℕ
zeros zero = []
zeros (suc n) = 0 ∷ zeros n

zeros-small : (n : ℕ) → All (λ b. b < 256) (zeros n)
unfolding zeros
zeros-small zero = tt
zeros-small (suc n) = (omega arith, zeros-small n)

zero_hash : HashId
zero_hash = record { bytes = zeros 32 }

zero_hash-IsHash : IsHash zero_hash
unfolding zero_hash zeros
zero_hash-IsHash = record { size = refl; in_range = zeros-small 32 }
