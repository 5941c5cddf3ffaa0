-- ===== src/Core/Convert.antt =====
-- The integer conversions of crates/fs0-core/src/utils.rs, and the columns of crates/fs0-core/src/
-- sqlite.rs: a `u64` goes into an INTEGER column through `u64_to_i64` and comes back by `row.u64`.
use fs.Prelude.{ℕ, ◌+◌, ◌<◌, ◌≤◌, ◌≡◌, ◌⊎◌, inl, inr, String, [], ◌∷◌, arith, ltb, if◌then◌else◌}
use fs.Prelude.Ints.{ℤ, pos, negsuc}
use fs.Core.Error.{Fs0Error, Fs0Result, ok, err, lit, num, int, integer_conversion, sqlite, ◌>>=◌}
use fs.Core.Constants.{i64_mod, u64_mod}

pub u64_to_i64 : ℕ → String → Fs0Result ℤ
u64_to_i64 value name =
    if ltb value i64_mod
    then ok (pos value)
    else err (
        integer_conversion (lit name ∷ lit " value " ∷ num value ∷ lit " does not fit in i64" ∷ []))

pub i64_to_u64 : ℤ → String → Fs0Result ℕ
i64_to_u64 (pos n) name = ok n
i64_to_u64 (negsuc n) name =
    err (integer_conversion (lit name ∷ lit " value " ∷ int (negsuc n) ∷ lit " is negative" ∷ []))

-- `row.u64(index, name)`
pub row_u64 : ℤ → String → Fs0Result ℕ
row_u64 (pos n) name = ok n
row_u64 (negsuc n) name =
    err (sqlite (lit name ∷ lit " value " ∷ int (negsuc n) ∷ lit " is negative" ∷ []))

-- A `u64` parameter of a statement: the number that a later `row.u64` reads from the column.
unfoldable pub column : ℕ → String → Fs0Result ℕ
unfolding u64_to_i64 row_u64
column value name = do i ← u64_to_i64 value name; row_u64 i name

-- A `u64` that is written to a column is read back unchanged if it is below 2^63, and is refused
-- with an integer conversion error otherwise; below 2^63, `i64_to_u64` takes back what `u64_to_i64`
-- did.
pub column_roundtrip :
    (value : ℕ) (name : String)
    → ((value < i64_mod)
        × (column value name ≡ ok value)
        × ((u64_to_i64 value name >>= λ i. i64_to_u64 i name) ≡ ok value))
      ⊎ ((i64_mod ≤ value)
          × (column value name
              ≡ err (
                  integer_conversion
                    (lit name ∷ lit " value " ∷ num value ∷ lit " does not fit in i64" ∷ []))))
unfolding column i64_to_u64
column_roundtrip value name = ground arith

pub column-ok : (value : ℕ) (name : String) → value < i64_mod → column value name ≡ ok value
unfolding column
column-ok value name h = ground arith

pub column-value :
    (value : ℕ) (name : String) (v : ℕ) → column value name ≡ ok v → (v ≡ value) × (value < i64_mod)
unfolding column
column-value value name v h = ground arith

pub column-cases :
    (value : ℕ) (name : String)
    → (column value name ≡ ok value) ⊎ ((e : Fs0Error) × (column value name ≡ err e))
column-cases value name = elim (column_roundtrip value name) [
  | inl (h, p, q) ↦ inl p
  | inr (h, p) ↦ inr (_, p)
]

-- `checked_add`
abbrev pub checked_add : ℕ → ℕ → Fs0Error → Fs0Result ℕ
checked_add a b e = if ltb (a + b) u64_mod then ok (a + b) else err e
