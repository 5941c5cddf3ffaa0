-- ===== src/Core/Compression.antt =====
-- `zstd_decompress` of crates/fs0-core/src/compression.rs, over the library's function.
use fs.Prelude.{ℕ, ◌⊎◌, inl, inr, List}
use fs.Core.Error.{Message, Fs0Result, ok, err, zstd}

abbrev pub zstd_decompress : (List ℕ → ℕ → Message ⊎ List ℕ) → List ℕ → ℕ → Fs0Result (List ℕ)
zstd_decompress decompress input max_output_size = elim (decompress input max_output_size) [
  | inl message ↦ err (zstd message)
  | inr output ↦ ok output
]
