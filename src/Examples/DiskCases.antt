-- ===== src/Examples/DiskCases.antt =====
-- The theorems on the loops over the system calls, with a disk that moves a byte per call.
use fs.Prelude.{ℕ, ◌≡◌, refl, inr, List, [], ◌∷◌, arith}
use fs.Volume.Disk.{Disk, write_at, read_at}
use fs.Volume.Disk.Loops.{read_at-write_at, write_at-frame}
use fs.Examples.Values.{byte_os}

abbrev blank : Disk
blank i o = 0

abbrev two_bytes : List ℕ
two_bytes = 8 ∷ 9 ∷ []

read_at-write_at_example : two_bytes ≡ two_bytes
unfolding write_at read_at
read_at-write_at_example = read_at-write_at byte_os 1 5 two_bytes two_bytes blank refl refl

write_at-frame_example : (write_at byte_os 1 5 two_bytes blank).1 1 7 ≡ 0
write_at-frame_example = write_at-frame byte_os 1 5 two_bytes blank 1 7 (inr (inr (omega arith)))
