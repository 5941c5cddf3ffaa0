-- ===== src/Core/Error.antt =====
-- crates/fs0-core/src/error.rs. A message is the list of the pieces that `format!` joins, so that
-- two messages with the same pieces are the same text.
use fs.Prelude.{ℕ, String, ◌≡◌, refl, Bool, true, false, Option, List, ◌⊎◌, inl, inr}
use fs.Prelude.Ints.{ℤ}
use fs.Core.Hash.{HashId}

-- Text and byte strings: the bytes of the UTF-8 encoding.
abbrev pub Text : Type 0
Text = List ℕ

pub data Piece : Type 0 where
  lit : String → Piece
  text : Text → Piece
  num : ℕ → Piece
  int : ℤ → Piece

abbrev pub Message : Type 0
Message = List Piece

pub data Fs0Error : Type 0 where
  invalid_frame io postcard zstd sqlite invalid_config invalid_data : Message → Fs0Error
  frame_too_large : ℕ → ℕ → Fs0Error
  invalid_path : Text → Fs0Error
  integer_conversion : Message → Fs0Error
  already_exists volume_not_found : Text → Fs0Error
  no_available_volume : Option Text → Option ℕ → Fs0Error
  chunk_not_found bundle_not_found : HashId → Fs0Error
  capacity_exceeded : ℕ → ℕ → Fs0Error
  hash_mismatch : ℕ → Fs0Error
  unsupported not_found volume_already_mounted : Fs0Error
  version_conflict : Message → Fs0Error
  chunk_not_ready invalid_request unauthorized unknown_volume central_unavailable : Fs0Error
  internal : Message → Fs0Error
  fs0_version : Text → Text → Fs0Error

-- `Fs0Result`
pub data Fs0Result {ℓ} (A : Type ℓ) : Type ℓ where
  ok : A → Fs0Result A
  err : Fs0Error → Fs0Result A

infixl 5 ◌>>=◌ ◌>>◌
abbrev pub ◌>>=◌ {ℓ κ} : {A : Type ℓ} {B : Type κ} → Fs0Result A → (A → Fs0Result B) → Fs0Result B
ok a >>= f = f a
err e >>= f = err e

abbrev pub ◌>>◌ {ℓ} : {B : Type ℓ} → Fs0Result (Unit {0}) → Fs0Result B → Fs0Result B
m >> k = m >>= λ _. k

-- `if failing { return Err(e); }`
abbrev pub reject : Bool → Fs0Error → Fs0Result (Unit {0})
reject true e = err e
reject false e = ok tt

-- `ok_or`
abbrev pub ok_or {ℓ} : {A : Type ℓ} → Option A → Fs0Error → Fs0Result A
ok_or Option.none e = err e
ok_or (Option.some a) e = ok a

pub Result-cases {ℓ} :
    {A : Type ℓ} (r : Fs0Result A) → ((a : A) × (r ≡ ok a)) ⊎ ((e : Fs0Error) × (r ≡ err e))
Result-cases (ok a) = inl (a, refl)
Result-cases (err e) = inr (e, refl)
