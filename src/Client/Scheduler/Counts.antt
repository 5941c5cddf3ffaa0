-- ===== src/Client/Scheduler/Counts.antt =====
-- Counting in the lists of the scheduler.
use fs.Prelude.{ℕ, ◌+◌, ◌≤◌, ◌≡◌, refl, Bool, true, false, List, [], ◌∷◌, ◌++◌, map, arith, num_eq}
use fs.Core.Error.{Fs0Result}
use fs.Core.Hash.{HashId, hash_eq}
use fs.Client.Scheduler.{
  Call, Task, joining, opening, waiting, running, refused, finished, call_with,
}

abbrev pub bit : Bool → ℕ
bit true = 1
bit false = 0

module _ {ℓ} {A : Type ℓ} where
  unfoldable pub count : (A → Bool) → List A → ℕ
  count p [] = 0
  count p (x ∷ xs) = bit (p x) + count p xs

  pub count-append : (p : A → Bool) (xs ys : List A) → count p (xs ++ ys) ≡ count p xs + count p ys
  unfolding count
  count-append p [] ys = omega arith
  count-append p (x ∷ xs) ys = omega (arith, count-append p xs ys)

  -- What a step changes about one task.
  pub count-middle :
      (p : A → Bool) (xs ys : List A) (y : A)
      → count p (xs ++ (y ∷ ys)) ≡ bit (p y) + count p (xs ++ ys)
  unfolding count
  count-middle p [] ys y = refl
  count-middle p (x ∷ xs) ys y = omega (arith, count-middle p xs ys y)

pub count_le {ℓ} :
    {A : Type ℓ} (p q : A → Bool)
    → ((x : A) → bit (p x) ≤ bit (q x))
    → (xs : List A) → count p xs ≤ count q xs
unfolding count
count_le p q h [] = omega arith
count_le p q h (x ∷ xs) = omega (arith, h x, count_le p q h xs)

-- The task runs, or is about to run, the handler for the hash.
abbrev pub owns : HashId → Task → Bool
owns h (joining hash slot callback) = false
owns h (opening hash slot callback) = hash_eq h hash
owns h (waiting hash slot) = hash_eq h hash
owns h (running hash slot) = hash_eq h hash
owns h (refused hash slot) = hash_eq h hash
owns h (finished hash slot permit) = hash_eq h hash

-- The task has the slot and has not completed it.
abbrev pub will_complete : ℕ → Task → Bool
will_complete i (joining hash slot callback) = false
will_complete i (opening hash slot callback) = num_eq i slot
will_complete i (waiting hash slot) = num_eq i slot
will_complete i (running hash slot) = num_eq i slot
will_complete i (refused hash slot) = num_eq i slot
will_complete i (finished hash slot permit) = false

-- The task has a permit.
abbrev pub has_permit : Task → Bool
has_permit (joining hash slot callback) = false
has_permit (opening hash slot callback) = false
has_permit (waiting hash slot) = false
has_permit (running hash slot) = true
has_permit (refused hash slot) = false
has_permit (finished hash slot permit) = permit

abbrev pub is_running : Task → Bool
is_running (running hash slot) = true
is_running _ = false

-- The task runs the handler for the hash.
abbrev pub runs : HashId → Task → Bool
runs h (running hash slot) = hash_eq h hash
runs h _ = false

-- The task is about to hand the callback to the slot.
abbrev pub will_add : ℕ → ℕ → Task → Bool
will_add i c (joining hash slot callback) = elim (num_eq i slot) [
  | true ↦ num_eq c callback
  | false ↦ false
]
will_add i c (opening hash slot callback) = elim (num_eq i slot) [
  | true ↦ num_eq c callback
  | false ↦ false
]
will_add i c (waiting hash slot) = false
will_add i c (running hash slot) = false
will_add i c (refused hash slot) = false
will_add i c (finished hash slot permit) = false

module _ {Res : Type 0} where
  abbrev pub is_call : ℕ → Call Res → Bool
  is_call c call = num_eq c call.callback

  -- Calling the callbacks that were queued calls each of them as often as it was queued.
  pub count-call_with :
      (c : ℕ) (result : Fs0Result Res) (cs : List ℕ)
      → count (is_call c) (map (call_with result) cs) ≡ count (num_eq c) cs
  unfolding count
  count-call_with c result [] = refl
  count-call_with c result (x ∷ xs) = omega (arith, count-call_with c result xs)

pub runs-owns : (h : HashId) (t : Task) → bit (runs h t) ≤ bit (owns h t)
runs-owns h (joining hash slot callback) = omega arith
runs-owns h (opening hash slot callback) = omega arith
runs-owns h (waiting hash slot) = omega arith
runs-owns h (running hash slot) = omega arith
runs-owns h (refused hash slot) = omega arith
runs-owns h (finished hash slot permit) = omega arith

pub running-permit : (t : Task) → bit (is_running t) ≤ bit (has_permit t)
running-permit (joining hash slot callback) = omega arith
running-permit (opening hash slot callback) = omega arith
running-permit (waiting hash slot) = omega arith
running-permit (running hash slot) = omega arith
running-permit (refused hash slot) = omega arith
running-permit (finished hash slot permit) = omega arith
