-- ===== src/Examples/Values.antt =====
-- Concrete values for the parameters of the model: a disk that moves a byte per system call, and a
-- hash that keeps its input.
use fs.Prelude.{
  ℕ, zero, suc, ◌*◌, ◌≤◌, ◌≡◌, refl, ◌&&◌, List, [], ◌∷◌, length, take, num_eq, arith,
  if◌then◌else◌, some,
}
use fs.Core.Error.{Fs0Result, ok}
use fs.Core.Hash.{HashId}
use fs.Core.Exec.{Exec}
use fs.Core.Constants.{volume_default_data_file_size}
use fs.Volume.Types.{VolumeMeta, Tables, empty_tables}
use fs.Volume.Disk.{Disk, Os, Outside, bytes_at}
use fs.Volume.DataFiles.{with_capacity}
use fs.Volume.Store.{Volume}
use fs.Volume.Store.Placement.{IsSound}
use fs.Volume.Store.Integrity.{IsIntact}

abbrev pub set_byte : ℕ → ℕ → ℕ → Disk → Disk
set_byte i o b d j p = if num_eq j i && num_eq p o then b else d j p

set_byte-same : (i o b : ℕ) (d : Disk) → set_byte i o b d i o ≡ b
set_byte-same i o b d = grind arith

set_byte-frame :
    (i o b : ℕ) (bs : List ℕ) (d : Disk) (j p : ℕ)
    → Outside i o (length (b ∷ bs)) j p
    → set_byte i o b d j p ≡ d j p
set_byte-frame i o b bs d j p h = grind (arith, h)

abbrev pub pwrite : ℕ → ℕ → List ℕ → Exec Disk ℕ
pwrite i o [] d = (ok 0, d)
pwrite i o (b ∷ bs) d = (ok 1, set_byte i o b d)

abbrev pub pread : ℕ → ℕ → ℕ → Disk → Fs0Result (List ℕ)
pread i o zero d = ok []
pread i o (suc n) d = ok (d i o ∷ [])

pub pwrite-count :
    (i o : ℕ) (bs : List ℕ) (d : Disk) (n : ℕ) → (pwrite i o bs d).0 ≡ ok n → n ≤ length bs
pwrite-count i o [] d n h = ground (arith, h)
pwrite-count i o (b ∷ bs) d n h = ground (arith, h)

pub pwrite-done :
    (i o : ℕ) (bs : List ℕ) (d : Disk) (n : ℕ)
    → (pwrite i o bs d).0 ≡ ok n
    → bytes_at (pwrite i o bs d).1 i o n ≡ take n bs
unfolding bytes_at
pwrite-done i o [] d n h = ground (arith, h)
pwrite-done i o (b ∷ bs) d n h = grind (arith, h, set_byte-same i o b d)

pub pwrite-frame :
    (i o : ℕ) (bs : List ℕ) (d : Disk) (j p : ℕ)
    → Outside i o (length bs) j p
    → (pwrite i o bs d).1 j p ≡ d j p
pwrite-frame i o [] d j p h = refl
pwrite-frame i o (b ∷ bs) d j p h = set_byte-frame i o b bs d j p h

pub pread-done :
    (i o n : ℕ) (d : Disk) (bs : List ℕ)
    → pread i o n d ≡ ok bs
    → (length bs ≤ n) × (bs ≡ bytes_at d i o (length bs))
unfolding bytes_at
pread-done i o zero d bs h = ground (arith, h)
pread-done i o (suc n) d bs h = ground (arith, h)

abbrev pub byte_os : Os
byte_os = record {
  open_file = λ i c d. (ok tt, d);
  pwrite = pwrite;
  pread = pread;
  sync_data = λ i d. ok tt;
  open_frame = λ i c d j p. refl;
  pwrite_count = pwrite-count;
  pwrite_done = pwrite-done;
  pwrite_frame = pwrite-frame;
  pread_done = pread-done;
}

-- The length and the bytes.
abbrev pub toy_hash : List ℕ → List ℕ
toy_hash bs = length bs ∷ bs

abbrev pub id_of : List ℕ → HashId
id_of bs = record { bytes = bs }

abbrev pub two_files_meta : VolumeMeta
two_files_meta = record {
  volume_id = 1;
  format_version = 1;
  max_bytes = 2 * volume_default_data_file_size;
  active_volume_offset = 0;
  created_at_ms = 5;
  updated_at_ms = 5;
}

abbrev pub two_files_tables : Tables
two_files_tables = record empty_tables { volume_meta = some two_files_meta }

-- A new volume of two data files.
abbrev pub two_files : Volume
two_files = record {
  db = record { conn = two_files_tables; meta = two_files_meta };
  files = with_capacity 2 (λ i o. 0);
}

pub two_files-IsSound : IsSound two_files.db
two_files-IsSound = record { loaded = refl; bounded = omega arith; fits = omega arith; placed = tt }

pub two_files-IsIntact : IsIntact toy_hash two_files
two_files-IsIntact = record { sound = two_files-IsSound; hashed = tt }
