-- ===== src/Core/Constants.antt =====
-- The constants of crates/fs0-core/src/lib.rs that the modelled code uses.
use fs.Prelude.{ℕ, ◌*◌, ◌^◌}

abbrev pub volume_bundle_raw_size : ℕ
volume_bundle_raw_size = 128 * 1024 * 1024

abbrev pub volume_raw_chunk_size : ℕ
volume_raw_chunk_size = 1024 * 1024

abbrev pub volume_default_data_file_size : ℕ
volume_default_data_file_size = 4 * 1024 * 1024 * 1024

abbrev pub volume_format_version : ℕ
volume_format_version = 1

abbrev pub volume_data_file_idle_ttl_ms : ℕ
volume_data_file_idle_ttl_ms = 60000

abbrev pub update_lease_ttl_ms : ℕ
update_lease_ttl_ms = 60000

-- `u64` and `i64`
abbrev pub u64_mod : ℕ
u64_mod = 2 ^ 64

abbrev pub i64_mod : ℕ
i64_mod = 2 ^ 63
