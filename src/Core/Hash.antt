-- ===== src/Core/Hash.antt =====
-- crates/fs0-core/src/hash.rs. `blake3` is the crate's hash function, a parameter wherever the code
-- calls it; a `HashId` holds the bytes of the array.
use fs.Prelude.{
  ℕ, ◌+◌, ◌*◌, ◌/◌, ◌%◌, ◌<◌, ◌≡◌, refl, ap, ◌↔◌, Bool, true, List, [], ◌∷◌, ◌++◌, arith, ltb,
  length, bytes_eq, bytes_eq_iff, All, if◌then◌else◌,
}

pub record HashId : Type 0 where
  pub bytes : List ℕ

-- `PartialEq`, derived
abbrev pub hash_eq : HashId → HashId → Bool
hash_eq a b = bytes_eq a.bytes b.bytes

pub hash_eq_iff : (a b : HashId) → (hash_eq a b ≡ true) ↔ (a ≡ b)
hash_eq_iff a b = (
  λ h. ap (λ (bs : List ℕ). record { bytes = bs }) ((bytes_eq_iff a.bytes b.bytes).0 h),
  λ e. (bytes_eq_iff a.bytes b.bytes).1 (ap (λ (h : HashId). h.bytes) e),
)

-- The type `[u8; 32]`: thirty-two bytes.
pub record IsHash (h : HashId) : Type 0 where
  pub size : length h.bytes ≡ 32
  pub in_range : All (λ b. b < 256) h.bytes

-- A digit of `{byte:02x}`, as its code.
abbrev hex_digit : ℕ → ℕ
hex_digit d = if ltb d 10 then 48 + d else 87 + d

hex_bytes : List ℕ → List ℕ
hex_bytes [] = []
hex_bytes (b ∷ bs) = hex_digit (b / 16) ∷ hex_digit (b % 16) ∷ hex_bytes bs

unfoldable pub to_hex : HashId → List ℕ
unfolding hex_bytes
to_hex h = hex_bytes h.bytes

-- What the hasher of `bundle_hash_from_chunks` is fed: the chunk ids in order.
unfoldable pub concat_ids : List HashId → List ℕ
concat_ids [] = []
concat_ids (h ∷ hs) = h.bytes ++ concat_ids hs

module _ (blake3 : List ℕ → List ℕ) where
  unfoldable pub blake3_hash : List ℕ → HashId
  blake3_hash bytes = record { bytes = blake3 bytes }

length-hex_bytes : (bs : List ℕ) → length (hex_bytes bs) ≡ 2 * length bs
unfolding hex_bytes
length-hex_bytes [] = refl
length-hex_bytes (b ∷ bs) = omega (arith, length-hex_bytes bs)

hex_digit-injective : (a b : ℕ) → a < 16 → b < 16 → hex_digit a ≡ hex_digit b → a ≡ b
hex_digit-injective a b ha hb e = ground arith

hex_bytes-injective :
    (as' bs : List ℕ)
    → All (λ b. b < 256) as'
    → All (λ b. b < 256) bs
    → hex_bytes as' ≡ hex_bytes bs
    → as' ≡ bs
unfolding hex_bytes
hex_bytes-injective [] [] ha hb e = refl
hex_bytes-injective [] (b ∷ bs) ha hb e = cc
hex_bytes-injective (a ∷ as') [] ha hb e = cc
hex_bytes-injective (a ∷ as') (b ∷ bs) ha hb e = ground (
  arith,
  hex_digit-injective (a / 16) (b / 16),
  hex_digit-injective (a % 16) (b % 16),
  hex_bytes-injective as' bs ha.1 hb.1,
)

-- The hexadecimal form of a hash has 64 characters.
pub length-to_hex : (a : HashId) → IsHash a → length (to_hex a) ≡ 64
unfolding to_hex
length-to_hex a h = omega (arith, length-hex_bytes a.bytes, h.size)

-- Two hashes (each of 32 bytes) with the same hexadecimal form are equal.
pub to_hex-injective : (a b : HashId) → IsHash a → IsHash b → to_hex a ≡ to_hex b → a ≡ b
unfolding to_hex
to_hex-injective a b ha hb e =
    ap (λ (bs : List ℕ). record { bytes = bs })
      (hex_bytes-injective a.bytes b.bytes ha.in_range hb.in_range e)
