-- ===== src/Volume/DataFiles.antt =====
-- crates/fs0-volume/src/data_file_cache.rs: a slot for each data file of the volume. The semaphores,
-- which only delay a task, are not modelled; a slot's mutex can be held by another task, which
-- `close_idle` sees.
pub mod Idle
use fs.Prelude.{
  ℕ, zero, suc, ◌-◌, Bool, true, false, Option, none, some, List, [], ◌∷◌, length, leb, num_eq,
  if◌then◌else◌,
}
use fs.Core.Error.{Fs0Error, ok, err, lit, num, invalid_data}
use fs.Core.Constants.{volume_data_file_idle_ttl_ms}
use fs.Core.Exec.{Exec, pure, modify, ◌>>◌}
use fs.Volume.Disk.{Disk, Os, write_at, read_at}

pub record DataFileSlot : Type 0 where
  pub open_now : Bool
  pub last_access_ms : ℕ

-- The slots of the cache, and the disk.
pub record DataFiles : Type 0 where
  pub slots : List DataFileSlot
  pub disk : Disk

abbrev pub closed_slot : DataFileSlot
closed_slot = record { open_now = false; last_access_ms = 0 }

abbrev pub new_slots : ℕ → List DataFileSlot
new_slots zero = []
new_slots (suc n) = closed_slot ∷ new_slots n

-- `with_capacity`
abbrev pub with_capacity : ℕ → Disk → DataFiles
with_capacity data_files disk = record { slots = new_slots data_files; disk = disk }

abbrev pub get_slot : List DataFileSlot → ℕ → Option DataFileSlot
get_slot [] i = none
get_slot (s ∷ ss) zero = some s
get_slot (s ∷ ss) (suc i) = get_slot ss i

abbrev pub set_slot : List DataFileSlot → ℕ → DataFileSlot → List DataFileSlot
set_slot [] i v = []
set_slot (s ∷ ss) zero v = v ∷ ss
set_slot (s ∷ ss) (suc i) v = s ∷ set_slot ss i v

abbrev pub no_slot : ℕ → List DataFileSlot → Fs0Error
no_slot index slots = invalid_data (
    lit "data file index "
    ∷ num index
    ∷ lit " exceeds configured data files "
    ∷ num (length slots)
    ∷ [])

abbrev pub on_disk : {A : Type 0} → Exec Disk A → Exec DataFiles A
on_disk m f = let (r, disk) = m f.disk in (r, record f { disk = disk })

abbrev put_slot : ℕ → DataFileSlot → Exec DataFiles (Unit {0})
put_slot index slot = modify (λ f. record f { slots = set_slot f.slots index slot })

-- One slot of `close_idle`; `held` says that another task holds the slot's mutex.
unfoldable pub close_if_idle : ℕ → Bool → DataFileSlot → DataFileSlot
close_if_idle now held slot =
    if num_eq slot.last_access_ms 0
    then slot
    else if leb (now - slot.last_access_ms) volume_data_file_idle_ttl_ms
    then slot
    else if held
    then slot
    else record slot { open_now = false }

unfoldable pub close_idle : ℕ → (ℕ → Bool) → ℕ → List DataFileSlot → List DataFileSlot
unfolding close_if_idle
close_idle now held index [] = []
close_idle now held index (s ∷ ss) =
    close_if_idle now (held index) s ∷ close_idle now held (suc index) ss

module _ (os : Os) where
  open_slot : ℕ → Bool → DataFileSlot → Exec DataFiles (Unit {0})
  open_slot index create_if_missing slot = elim slot.open_now [
    | true ↦ pure tt
    | false ↦ do
      on_disk (os.open_file index create_if_missing)
      put_slot index (record slot { open_now = true })
  ]

  unfoldable pub get_or_open : ℕ → Bool → Exec DataFiles (Unit {0})
  unfolding open_slot
  get_or_open index create_if_missing f = elim (get_slot f.slots index) [
    | none ↦ (err (no_slot index f.slots), f)
    | some slot ↦ open_slot index create_if_missing slot f
  ]

  abbrev touch : ℕ → ℕ → Exec DataFiles (Unit {0})
  touch index now f = elim (get_slot f.slots index) [
    | none ↦ (ok tt, f)
    | some slot ↦
        (ok tt, record f { slots = set_slot f.slots index (record slot { last_access_ms = now }) })
  ]

  unfoldable pub write_file : ℕ → ℕ → List ℕ → ℕ → Exec DataFiles (Unit {0})
  unfolding get_or_open
  write_file index offset bytes now = do
    get_or_open index true
    touch index now
    on_disk (write_at os index offset bytes)
    on_disk (λ d. (os.sync_data index d, d))

  unfoldable pub read_file : ℕ → ℕ → ℕ → ℕ → Exec DataFiles (List ℕ)
  unfolding get_or_open
  read_file index offset len now = do
    get_or_open index false
    touch index now
    on_disk (λ d. (read_at os index offset len d, d))
