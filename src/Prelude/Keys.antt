-- ===== src/Prelude/Keys.antt =====
-- Equality of keys, as Boolean tests: numbers and byte strings here, hashes in Core.Hash.
use Prim.Native.Nat.{ℕ}
use mathlib.Core.Path.{◌≡◌}
use mathlib.Core.Logic.{◌↔◌}
use mathlib.Core.Bool.{Bool, true, false, ◌&&◌}
use mathlib.Core.List.{List, [], ◌∷◌}
use native.Mathlib.Omega.{arith}
use fs.Prelude.Tests.{ltb, num_eq, if◌then◌else◌}

pub num_eq_iff : (a b : ℕ) → (num_eq a b ≡ true) ↔ (a ≡ b)
num_eq_iff a b = ground arith

unfoldable pub bytes_eq : List ℕ → List ℕ → Bool
bytes_eq [] [] = true
bytes_eq [] (b ∷ bs) = false
bytes_eq (a ∷ as') [] = false
bytes_eq (a ∷ as') (b ∷ bs) = num_eq a b && bytes_eq as' bs

pub bytes_eq_iff : (a b : List ℕ) → (bytes_eq a b ≡ true) ↔ (a ≡ b)
unfolding bytes_eq
bytes_eq_iff [] [] = ground arith
bytes_eq_iff [] (b ∷ bs) = ground arith
bytes_eq_iff (a ∷ as') [] = ground arith
bytes_eq_iff (a ∷ as') (b ∷ bs) = ground (arith, bytes_eq_iff as' bs)

-- The collation of a text column: byte by byte, a prefix first.
unfoldable pub bytes_leb : List ℕ → List ℕ → Bool
bytes_leb [] bs = true
bytes_leb (a ∷ as') [] = false
bytes_leb (a ∷ as') (b ∷ bs) = let rest = bytes_leb as' bs in if num_eq a b then rest else ltb a b
