-- ===== src/Volume/Disk.antt =====
-- crates/fs0-volume/src/io_platform.rs, the Unix versions: loops over the system calls of
-- `std::os::unix::fs::FileExt`, which are a parameter with their documented behaviour.
pub mod Loops
use fs.Prelude.{
  ℕ, zero, suc, ◌+◌, ◌-◌, ◌≤◌, ◌<◌, ◌≡◌, ◌≢◌, ◌⊎◌, refl, ap, inl, inr, Bool, List, [], ◌∷◌, ◌++◌,
  length, take, drop, arith,
}
use fs.Core.Error.{Fs0Error, Fs0Result, ok, err, lit, io, internal}
use fs.Core.Exec.{Exec}

-- The bytes of the data files, by file index and position.
abbrev pub Disk : Type 0
Disk = ℕ → ℕ → ℕ

unfoldable pub bytes_at : Disk → ℕ → ℕ → ℕ → List ℕ
bytes_at d i o zero = []
bytes_at d i o (suc n) = d i o ∷ bytes_at d i (o + 1) n

-- Outside the range of `n` bytes of file `i` from `o`.
abbrev pub Outside : ℕ → ℕ → ℕ → ℕ → ℕ → Type 0
Outside i o n j p = (j ≢ i) ⊎ ((p < o) ⊎ (o + n ≤ p))

-- `open_file` opens a data file (and preallocates it, with the flag `create`), without truncation.
-- `pwrite` writes the first `n` of the bytes for some `n`, `pread` reads up to so many bytes.
-- `sync_data` flushes a file, which can fail, and leaves what is read from it.
pub record Os : Type 0 where
  pub open_file : ℕ → Bool → Exec Disk (Unit {0})
  pub pwrite : ℕ → ℕ → List ℕ → Exec Disk ℕ
  pub pread : ℕ → ℕ → ℕ → Disk → Fs0Result (List ℕ)
  pub sync_data : ℕ → Disk → Fs0Result (Unit {0})
  pub open_frame : (i : ℕ) (c : Bool) (d : Disk) (j p : ℕ) → (open_file i c d).1 j p ≡ d j p
  pub pwrite_count :
      (i o : ℕ) (bs : List ℕ) (d : Disk) (n : ℕ) → (pwrite i o bs d).0 ≡ ok n → n ≤ length bs
  pub pwrite_done :
      (i o : ℕ) (bs : List ℕ) (d : Disk) (n : ℕ)
      → (pwrite i o bs d).0 ≡ ok n
      → bytes_at (pwrite i o bs d).1 i o n ≡ take n bs
  pub pwrite_frame :
      (i o : ℕ) (bs : List ℕ) (d : Disk) (j p : ℕ)
      → Outside i o (length bs) j p
      → (pwrite i o bs d).1 j p ≡ d j p
  pub pread_done :
      (i o n : ℕ) (d : Disk) (bs : List ℕ)
      → pread i o n d ≡ ok bs
      → (length bs ≤ n) × (bs ≡ bytes_at d i o (length bs))

abbrev pub write_zero : Fs0Error
write_zero = io (lit "failed to write whole buffer" ∷ [])

abbrev pub unexpected_eof : Fs0Error
unexpected_eof = io (lit "failed to fill whole buffer" ∷ [])

-- No round of the loops below is left: each round moves by at least a byte, so fuel of the length of
-- the buffer is enough.
abbrev pub out_of_fuel : Fs0Error
out_of_fuel = internal (lit "out of fuel" ∷ [])

module _ (os : Os) where
  -- One round's result: the bytes written, and the rest of the loop on what is left.
  abbrev after_write : (ℕ → Exec Disk (Unit {0})) → Fs0Result ℕ × Disk → Fs0Result (Unit {0}) × Disk
  after_write next (err e, d) = (err e, d)
  after_write next (ok zero, d) = (err write_zero, d)
  after_write next (ok (suc n), d) = next (suc n) d

  -- `io_platform::write_at`
  unfoldable pub write_loop : ℕ → ℕ → ℕ → List ℕ → Exec Disk (Unit {0})
  write_loop fuel i o [] d = (ok tt, d)
  write_loop zero i o (b ∷ bs) d = (err out_of_fuel, d)
  write_loop (suc fuel) i o (b ∷ bs) d =
      after_write (λ n. write_loop fuel i (o + n) (drop n (b ∷ bs))) (os.pwrite i o (b ∷ bs) d)

  abbrev after_read : (List ℕ → Fs0Result (List ℕ)) → Fs0Result (List ℕ) → Fs0Result (List ℕ)
  after_read next (err e) = err e
  after_read next (ok []) = err unexpected_eof
  after_read next (ok (b ∷ bs)) = next (b ∷ bs)

  abbrev prepend : List ℕ → Fs0Result (List ℕ) → Fs0Result (List ℕ)
  prepend bs (ok cs) = ok (bs ++ cs)
  prepend bs (err e) = err e

  -- `io_platform::read_at` into a buffer of `n` bytes
  unfoldable pub read_loop : ℕ → ℕ → ℕ → ℕ → Disk → Fs0Result (List ℕ)
  read_loop fuel i o zero d = ok []
  read_loop zero i o (suc n) d = err out_of_fuel
  read_loop (suc fuel) i o (suc n) d =
      after_read (λ bs. prepend bs (read_loop fuel i (o + length bs) (suc n - length bs) d))
        (os.pread i o (suc n) d)

  unfoldable pub write_at : ℕ → ℕ → List ℕ → Exec Disk (Unit {0})
  unfolding write_loop
  write_at i o bs = write_loop (length bs) i o bs

  unfoldable pub read_at : ℕ → ℕ → ℕ → Disk → Fs0Result (List ℕ)
  unfolding read_loop
  read_at i o n = read_loop n i o n
