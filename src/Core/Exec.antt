-- ===== src/Core/Exec.antt =====
-- Methods that change a state and may fail. What was written before a failure stays written, so the
-- state comes back beside the error too; a database transaction puts the old state back.
use fs.Prelude.{◌≡◌, refl, Bool, true, false, inl, inr, arith}
use fs.Core.Error.{Fs0Error, Fs0Result, ok, err, Result-cases}

abbrev pub Exec {ℓ} : Type ℓ → Type ℓ → Type ℓ
Exec S A = S → Fs0Result A × S

module _ {ℓ} {S A : Type ℓ} where
  abbrev pub pure : A → Exec S A
  pure a s = (ok a, s)

  abbrev pub raise : Fs0Error → Exec S A
  raise e s = (err e, s)

  abbrev pub lift : Fs0Result A → Exec S A
  lift r s = (r, s)

  abbrev pub gets : (S → A) → Exec S A
  gets f s = (ok (f s), s)

  -- `conn.transaction()?` up to `tx.commit()?`: a transaction that is dropped is rolled back.
  abbrev pub settle : S → Fs0Result A × S → Fs0Result A × S
  settle old (ok a, new) = (ok a, new)
  settle old (err e, new) = (err e, old)

  abbrev pub transaction : Exec S A → Exec S A
  transaction m s = settle s (m s)

module _ {S : Type 0} where
  abbrev pub modify : (S → S) → Exec S (Unit {0})
  modify f s = (ok tt, f s)

  -- `if failing { return Err(e); }`
  abbrev pub reject : Bool → Fs0Error → Exec S (Unit {0})
  reject true e s = (err e, s)
  reject false e s = (ok tt, s)

module _ {ℓ} {S A B : Type ℓ} where
  abbrev pub continue : Fs0Result A × S → (A → Exec S B) → Fs0Result B × S
  continue (ok a, s) f = f a s
  continue (err e, s) f = (err e, s)

  infixl 5 ◌>>=◌
  abbrev pub ◌>>=◌ : Exec S A → (A → Exec S B) → Exec S B
  ◌>>=◌ m f s = continue (m s) f

infixl 5 ◌>>◌
abbrev pub ◌>>◌ : {S B : Type 0} → Exec S (Unit {0}) → Exec S B → Exec S B
m >> k = m >>= λ _. k

-- A guard in front of an action keeps what the action keeps where the guard lets it run.
pub reject-keeps {ℓ} :
    {S B : Type 0} (P : S → Type ℓ) (b : Bool) (e : Fs0Error) (m : Exec S B) (s : S)
    → P s
    → (b ≡ false → P (m s).1)
    → P ((reject b e >> m) s).1
reject-keeps P true e m s h k = h
reject-keeps P false e m s h k = k refl

-- A guard that let a successful run through did nothing.
pub reject-ok :
    {S B : Type 0} (b : Bool) (e : Fs0Error) (m : Exec S B) (s : S) (a : B)
    → ((reject b e >> m) s).0 ≡ ok a
    → (reject b e >> m) s ≡ m s
reject-ok true e m s a h = cc
reject-ok false e m s a h = refl

-- A step that succeeded hands its result and its state on; one that failed is the result.
pub bind-ok :
    {S A B : Type 0} (m : Exec S A) (f : A → Exec S B) (s : S) (a : A)
    → (m s).0 ≡ ok a
    → (m >>= f) s ≡ f a (m s).1
bind-ok m f s a h = ground (arith, h)

pub bind-err :
    {S A B : Type 0} (m : Exec S A) (f : A → Exec S B) (s : S) (e : Fs0Error)
    → (m s).0 ≡ err e
    → (m >>= f) s ≡ (err e, (m s).1)
bind-err m f s e h = ground (arith, h)

pub reject-passed :
    {S B : Type 0} (b : Bool) (e : Fs0Error) (m : Exec S B) (s : S) (a : B)
    → ((reject b e >> m) s).0 ≡ ok a
    → b ≡ false
reject-passed true e m s a h = cc
reject-passed false e m s a h = refl

-- A property of the state that a step and what follows it both keep.
pub bind-keeps {ℓ} :
    {S A B : Type 0} (P : S → Type ℓ) (m : Exec S A) (f : A → Exec S B) (s : S)
    → P (m s).1
    → ((a : A) → (m s).0 ≡ ok a → P (f a (m s).1).1)
    → P ((m >>= f) s).1
bind-keeps P m f s h k = elim (Result-cases (m s).0) [
  | inl (a, p) ↦ rw (bind-ok m f s a p) (k a p)
  | inr (e, p) ↦ rw (bind-err m f s e p) h
]

-- A sequence succeeds only when its first step does, and is then what follows it.
pub bind_sound :
    {S A B : Type 0} (m : Exec S A) (f : A → Exec S B) (s : S) (b : B)
    → ((m >>= f) s).0 ≡ ok b
    → (a : A) × ((m s).0 ≡ ok a) × ((m >>= f) s ≡ f a (m s).1)
bind_sound m f s b h = elim (Result-cases (m s).0) [
  | inl (a, p) ↦ (a, p, bind-ok m f s a p)
  | inr (e, p) ↦ absurd (ground (arith, h, bind-err m f s e p))
]
