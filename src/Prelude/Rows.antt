-- ===== src/Prelude/Rows.antt =====
-- A table is the list of its rows in insertion order. These are the SQL statements that the program
-- sends, over a Boolean WHERE clause.
use Prim.Native.Nat.{ℕ, ◌+◌, ◌≤◌}
use mathlib.Core.Path.{◌≡◌, refl}
use mathlib.Core.Bool.{Bool, true, false}
use mathlib.Core.Option.{Option, none, some}
use mathlib.Core.List.{List, [], ◌∷◌, ◌++◌}
use native.Mathlib.Omega.{arith}
use fs.Prelude.Tests.{leb, if◌then◌else◌}
use fs.Prelude.Lists.{All, any}

module _ {ℓ} {A : Type ℓ} where
  -- SELECT ... WHERE p LIMIT 1
  unfoldable pub find : (A → Bool) → List A → Option A
  find p [] = none
  find p (x ∷ xs) = if p x then some x else find p xs

  -- SELECT ... WHERE p
  unfoldable pub select : (A → Bool) → List A → List A
  select p [] = []
  select p (x ∷ xs) = let rest = select p xs in if p x then x ∷ rest else rest

  -- DELETE ... WHERE p
  unfoldable pub delete : (A → Bool) → List A → List A
  delete p [] = []
  delete p (x ∷ xs) = let rest = delete p xs in if p x then rest else x ∷ rest

  -- UPDATE ... SET f WHERE p
  unfoldable pub update : (A → Bool) → (A → A) → List A → List A
  update p f [] = []
  update p f (x ∷ xs) = (if p x then f x else x) ∷ update p f xs

  -- SELECT SUM(f)
  unfoldable pub sum_by : (A → ℕ) → List A → ℕ
  sum_by f [] = 0
  sum_by f (x ∷ xs) = f x + sum_by f xs

module _ {ℓ κ} {A : Type ℓ} (P : A → Type κ) where
  -- What a query finds satisfies its WHERE clause and whatever holds of all rows.
  pub find-All : (p : A → Bool) (xs : List A) (a : A) → find p xs ≡ some a → All P xs → P a
  unfolding find
  find-All p [] a e h = cc
  find-All p (x ∷ xs) a e h = ground (arith, find-All p xs a)

  pub delete-All : (p : A → Bool) (xs : List A) → All P xs → All P (delete p xs)
  unfolding delete
  delete-All p [] h = tt
  delete-All p (x ∷ xs) h = ground (arith, delete-All p xs h.1)

  pub update-All :
      (p : A → Bool) (f : A → A) (xs : List A)
      → ((a : A) → P a → P (f a))
      → All P xs
      → All P (update p f xs)
  unfolding update
  update-All p f [] k h = tt
  update-All p f (x ∷ xs) k h = ground (arith, k x, update-All p f xs k h.1)

module _ {ℓ} {A : Type ℓ} where
  pub find-where : (p : A → Bool) (xs : List A) (a : A) → find p xs ≡ some a → p a ≡ true
  unfolding find
  find-where p [] a e = cc
  find-where p (x ∷ xs) a e = ground (arith, find-where p xs a)

  pub find-append_none :
      (p : A → Bool) (xs ys : List A) → find p xs ≡ none → find p (xs ++ ys) ≡ find p ys
  unfolding find
  find-append_none p [] ys e = refl
  find-append_none p (x ∷ xs) ys e = ground (arith, find-append_none p xs ys)

  pub find-append_some :
      (p : A → Bool) (xs ys : List A) (a : A) → find p xs ≡ some a → find p (xs ++ ys) ≡ some a
  unfolding find
  find-append_some p [] ys a e = cc
  find-append_some p (x ∷ xs) ys a e = ground (arith, find-append_some p xs ys a)

  pub find-append_last :
      (p : A → Bool) (xs : List A) (a : A) → p a ≡ false → find p (xs ++ (a ∷ [])) ≡ find p xs
  unfolding find
  find-append_last p [] a e = ground (arith, e)
  find-append_last p (x ∷ xs) a e = ground (arith, find-append_last p xs a e)

  pub find-delete : (p : A → Bool) (xs : List A) → find p (delete p xs) ≡ none
  unfolding find delete
  find-delete p [] = refl
  find-delete p (x ∷ xs) = ground (arith, find-delete p xs)

  -- Nothing is found of what a DELETE names.
  pub find-delete_named :
      (p q : A → Bool) (xs : List A)
      → ((a : A) → p a ≡ true → q a ≡ true)
      → find p (delete q xs) ≡ none
  unfolding find delete
  find-delete_named p q [] h = refl
  find-delete_named p q (x ∷ xs) h = ground (arith, h x, find-delete_named p q xs h)

  -- What is not found is not found after a DELETE.
  pub find-delete-none :
      (p q : A → Bool) (xs : List A) → find p xs ≡ none → find p (delete q xs) ≡ none
  unfolding find delete
  find-delete-none p q [] e = refl
  find-delete-none p q (x ∷ xs) e = ground (arith, e, find-delete-none p q xs)

  pub delete-append_last :
      (q : A → Bool) (xs : List A) (a : A)
      → q a ≡ false
      → delete q (xs ++ (a ∷ [])) ≡ delete q xs ++ (a ∷ [])
  unfolding delete
  delete-append_last q [] a e = ground (arith, e)
  delete-append_last q (x ∷ xs) a e = ground (arith, delete-append_last q xs a e)

  -- A row that the DELETE does not name is found as before.
  pub find-delete_other :
      (p q : A → Bool) (xs : List A)
      → ((a : A) → p a ≡ true → q a ≡ false)
      → find p (delete q xs) ≡ find p xs
  unfolding find delete
  find-delete_other p q [] h = refl
  find-delete_other p q (x ∷ xs) h = ground (arith, h x, find-delete_other p q xs h)

  -- What a query found is still found when another row is deleted.
  pub find-delete_kept :
      (p q : A → Bool) (xs : List A) (a : A)
      → find p xs ≡ some a
      → q a ≡ false
      → find p (delete q xs) ≡ some a
  unfolding find delete
  find-delete_kept p q [] a e k = cc
  find-delete_kept p q (x ∷ xs) a e k = ground (arith, find-delete_kept p q xs a)

  pub any-found : (p : A → Bool) (xs : List A) (a : A) → find p xs ≡ some a → any p xs ≡ true
  unfolding find
  any-found p [] a e = cc
  any-found p (x ∷ xs) a e = ground (arith, any-found p xs a)

  pub find-none_of_any : (p : A → Bool) (xs : List A) → any p xs ≡ false → find p xs ≡ none
  unfolding find
  find-none_of_any p [] h = refl
  find-none_of_any p (x ∷ xs) h = ground (arith, h, find-none_of_any p xs)

  pub delete-drops : (q : A → Bool) (xs : List A) → All (λ a. q a ≡ false) (delete q xs)
  unfolding delete
  delete-drops q [] = tt
  delete-drops q (x ∷ xs) = ground (arith, delete-drops q xs)

  pub select-append :
      (p : A → Bool) (xs ys : List A) → select p (xs ++ ys) ≡ select p xs ++ select p ys
  unfolding select
  select-append p [] ys = refl
  select-append p (x ∷ xs) ys = ground (arith, select-append p xs ys)

  pub select-delete : (p : A → Bool) (xs : List A) → select p (delete p xs) ≡ []
  unfolding select delete
  select-delete p [] = refl
  select-delete p (x ∷ xs) = ground (arith, select-delete p xs)

  pub select-delete_other :
      (p q : A → Bool) (xs : List A)
      → ((a : A) → p a ≡ true → q a ≡ false)
      → select p (delete q xs) ≡ select p xs
  unfolding select delete
  select-delete_other p q [] h = refl
  select-delete_other p q (x ∷ xs) h = ground (arith, h x, select-delete_other p q xs h)

module _ {ℓ} {A : Type ℓ} (key : A → ℕ) where
  insert_by : A → List A → List A
  insert_by x [] = x ∷ []
  insert_by x (y ∷ ys) =
      let rest = y ∷ insert_by x ys in if leb (key x) (key y) then x ∷ y ∷ ys else rest

  -- ORDER BY key, and the stable `sort_by_key`
  unfoldable pub order_by : List A → List A
  unfolding insert_by
  order_by [] = []
  order_by (x ∷ xs) = insert_by x (order_by xs)

  -- The keys do not fall along the list, and start at or above `low`.
  abbrev pub Ascends : ℕ → List A → Type 0
  Ascends low [] = Unit {0}
  Ascends low (x ∷ xs) = (low ≤ key x) × Ascends (key x) xs

  insert_by-Ascends :
      (low : ℕ) (x : A) (xs : List A) → low ≤ key x → Ascends low xs → Ascends low (insert_by x xs)
  unfolding insert_by
  insert_by-Ascends low x [] h a = (h, tt)
  insert_by-Ascends low x (y ∷ ys) h a = ground (arith, insert_by-Ascends (key y) x ys)

  pub order_by-Ascends : (xs : List A) → Ascends 0 (order_by xs)
  unfolding order_by
  order_by-Ascends [] = tt
  order_by-Ascends (x ∷ xs) =
      insert_by-Ascends 0 x (order_by xs) (omega arith) (order_by-Ascends xs)

  insert_by-first : (x : A) (xs : List A) → Ascends (key x) xs → insert_by x xs ≡ x ∷ xs
  unfolding insert_by
  insert_by-first x [] a = refl
  insert_by-first x (y ∷ ys) a = ground arith

  -- What is in order already stays as it is.
  pub order_by-sorted : (low : ℕ) (xs : List A) → Ascends low xs → order_by xs ≡ xs
  unfolding order_by
  order_by-sorted low [] a = refl
  order_by-sorted low (x ∷ xs) a =
      ground (arith, order_by-sorted (key x) xs a.1, insert_by-first x xs a.1)

  pub order_by-All {κ} : (P : A → Type κ) (xs : List A) → All P xs → All P (order_by xs)
  unfolding order_by
  order_by-All P [] h = tt
  order_by-All P (x ∷ xs) h = insert-All x (order_by xs) h.0 (order_by-All P xs h.1)
    where
      insert-All : (y : A) (ys : List A) → P y → All P ys → All P (insert_by y ys)
      insert-All y [] py h = (py, tt)
      insert-All y (z ∷ zs) py h = ground (arith, insert-All y zs py h.1)

module _ {ℓ} {A : Type ℓ} (precedes : A → A → Bool) where
  insert_with : A → List A → List A
  insert_with x [] = x ∷ []
  insert_with x (y ∷ ys) =
      let rest = y ∷ insert_with x ys in if precedes x y then x ∷ y ∷ ys else rest

  -- ORDER BY a column that is not a number
  unfoldable pub order_with : List A → List A
  unfolding insert_with
  order_with [] = []
  order_with (x ∷ xs) = insert_with x (order_with xs)
