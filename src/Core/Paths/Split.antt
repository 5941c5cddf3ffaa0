-- ===== src/Core/Paths/Split.antt =====
-- `split` against its inverse, which writes the components with slashes between them.
use fs.Prelude.{
  ℕ, ◌≡◌, refl, false, none, some, List, [], ◌∷◌, ◌++◌, arith, any, All, inl, inr, Bool-cases,
  Option-cases,
}
use mathlib.Core.List.{append_assoc}
use fs.Core.Error.{Text}
use fs.Core.Paths.{
  slash, is_slash, contains_slash, onto_head, split, ends_with_slash, contains_double_slash,
  rsplit_once, is_bad_component, is_dots, is_empty,
}

-- Each component behind a slash.
unfoldable pub render : List Text → Text
render [] = []
render (t ∷ ts) = slash ∷ (t ++ render ts)

-- What a component of a path is.
pub record IsName (t : Text) : Type 0 where
  pub fits : is_bad_component t ≡ false
  pub whole : contains_slash t ≡ false

onto-render :
    (c : ℕ) (ts : List Text) (cs : Text)
    → render ts ≡ slash ∷ cs
    → render (onto_head c ts) ≡ slash ∷ c ∷ cs
unfolding render
onto-render c [] cs e = cc
onto-render c (t ∷ ts) cs e = cc

-- The pieces of `split`, each behind a slash, are the text behind a slash.
pub render-split : (t : Text) → render (split t) ≡ slash ∷ t
unfolding render split
render-split [] = refl
render-split (c ∷ cs) = elim (Bool-cases (is_slash c)) [
  | inl e ↦ ground (arith, render-split cs)
  | inr e ↦ rw e (onto-render c (split cs) cs (render-split cs))
]

-- Components without a slash come back from `split`.
pub split-render :
    (t : Text) (ts : List Text)
    → contains_slash t ≡ false
    → All (λ u. contains_slash u ≡ false) ts
    → split (t ++ render ts) ≡ t ∷ ts
unfolding render split
split-render [] [] h hs = refl
split-render [] (u ∷ us) h hs = ground (arith, split-render u us hs.0 hs.1)
split-render (c ∷ cs) ts h hs = ground (arith, split-render cs ts)

rsplit_once-whole : (n : Text) → contains_slash n ≡ false → rsplit_once n ≡ none
unfolding rsplit_once
rsplit_once-whole [] h = refl
rsplit_once-whole (c ∷ cs) h = ground (arith, rsplit_once-whole cs)

pub rsplit_once-append :
    (p n : Text) → contains_slash n ≡ false → rsplit_once (p ++ (slash ∷ n)) ≡ some (p, n)
unfolding rsplit_once
rsplit_once-append [] n h = ground (arith, rsplit_once-whole n h)
rsplit_once-append (c ∷ cs) n h = ground (arith, rsplit_once-append cs n h)

rsplit_once-none : (t : Text) → rsplit_once t ≡ none → contains_slash t ≡ false
unfolding rsplit_once
rsplit_once-none [] h = refl
rsplit_once-none (c ∷ cs) h = ground (arith, rsplit_once-none cs)

pub rsplit_once_sound :
    (t p n : Text)
    → rsplit_once t ≡ some (p, n)
    → (t ≡ p ++ (slash ∷ n)) × (contains_slash n ≡ false)
unfolding rsplit_once
rsplit_once_sound [] p n h = cc
rsplit_once_sound (c ∷ cs) p n h = elim (Option-cases (rsplit_once cs)) [
  | inl e ↦ ground (arith, rsplit_once-none cs e)
  | inr ((b, a), e) ↦ ground (arith, rsplit_once_sound cs b a e)
]

pub ends_with_slash-append :
    (p : Text) (x : ℕ) (n : Text)
    → contains_slash (x ∷ n) ≡ false
    → ends_with_slash (p ++ (x ∷ n)) ≡ false
unfolding ends_with_slash
ends_with_slash-append [] x [] h = ground arith
ends_with_slash-append [] x (y ∷ n) h = ends_with_slash-append [] y n (ground arith)
ends_with_slash-append (c ∷ []) x n h = ends_with_slash-append [] x n h
ends_with_slash-append (c ∷ d ∷ p) x n h = ends_with_slash-append (d ∷ p) x n h

-- No piece of `split` holds a slash.
onto-whole :
    (c : ℕ) (ts : List Text)
    → is_slash c ≡ false
    → All (λ u. contains_slash u ≡ false) ts
    → All (λ u. contains_slash u ≡ false) (onto_head c ts)
onto-whole c [] h hs = (ground arith, tt)
onto-whole c (t ∷ ts) h hs = (ground arith, hs.1)

pub split-whole : (t : Text) → All (λ u. contains_slash u ≡ false) (split t)
unfolding split
split-whole [] = (refl, tt)
split-whole (c ∷ cs) = elim (Bool-cases (is_slash c)) [
  | inl e ↦ rw e (refl, split-whole cs)
  | inr e ↦ rw e (onto-whole c (split cs) e (split-whole cs))
]

-- A text of names behind slashes has no double slash.
pub double_slash-render :
    (t : Text) (ts : List Text)
    → contains_slash t ≡ false
    → All IsName ts
    → contains_double_slash (t ++ render ts) ≡ false
unfolding contains_double_slash render is_bad_component
double_slash-render [] [] h hs = refl
double_slash-render [] ([] ∷ us) h hs = ground arith
double_slash-render [] ((c ∷ u) ∷ us) h hs =
    ground (arith, double_slash-render (c ∷ u) us hs.0.whole hs.1)
double_slash-render (c ∷ cs) ts h hs = ground (arith, double_slash-render cs ts)

abbrev rest_of : List Text → List Text
rest_of [] = []
rest_of (t ∷ ts) = ts

rest-onto : (c : ℕ) (ts : List Text) → rest_of (onto_head c ts) ≡ rest_of ts
rest-onto c [] = refl
rest-onto c (t ∷ ts) = refl

any_empty-onto :
    (c : ℕ) (ts : List Text) → any is_empty (onto_head c ts) ≡ any is_empty (rest_of ts)
any_empty-onto c [] = refl
any_empty-onto c (t ∷ ts) = refl

-- Without a double slash, only the first piece can be empty.
rest-split-filled :
    (t n : Text)
    → contains_double_slash (t ++ (slash ∷ n)) ≡ false
    → any is_empty (rest_of (split t)) ≡ false
unfolding contains_double_slash split
rest-split-filled [] n h = refl
rest-split-filled (c ∷ []) n h = ground arith
rest-split-filled (c ∷ d ∷ cs) n h = elim (Bool-cases (is_slash c)) [
  | inl e ↦
      ground
        (arith, any_empty-onto d (split cs), rest-onto d (split cs), rest-split-filled (d ∷ cs) n)
  | inr e ↦ ground (arith, rest-onto c (split (d ∷ cs)), rest-split-filled (d ∷ cs) n)
]

pub split-filled :
    (t n : Text)
    → contains_double_slash (slash ∷ (t ++ (slash ∷ n))) ≡ false
    → any is_empty (split t) ≡ false
unfolding contains_double_slash split
split-filled [] n h = ground arith
split-filled (c ∷ cs) n h =
    ground
      (arith, any_empty-onto c (split cs), rest-onto c (split cs), rest-split-filled (c ∷ cs) n)

-- Pieces that pass the tests are names.
pub names_of :
    (ts : List Text)
    → any is_empty ts ≡ false
    → any is_dots ts ≡ false
    → All (λ u. contains_slash u ≡ false) ts
    → All IsName ts
unfolding is_bad_component
names_of [] he hd hw = tt
names_of (t ∷ ts) he hd hw =
    (record { fits = ground arith; whole = hw.0 }, names_of ts (ground arith) (ground arith) hw.1)

pub names_of_fit :
    (ts : List Text)
    → any is_bad_component ts ≡ false
    → All (λ u. contains_slash u ≡ false) ts
    → All IsName ts
names_of_fit [] h hw = tt
names_of_fit (t ∷ ts) h hw =
    (record { fits = ground arith; whole = hw.0 }, names_of_fit ts (ground arith) hw.1)

pub fit_of_names : (ts : List Text) → All IsName ts → any is_bad_component ts ≡ false
fit_of_names [] h = refl
fit_of_names (t ∷ ts) h = ground (arith, h.0.fits, fit_of_names ts h.1)

pub dots_of_names : (ts : List Text) → All IsName ts → any is_dots ts ≡ false
unfolding is_bad_component
dots_of_names [] h = refl
dots_of_names (t ∷ ts) h = ground (arith, h.0.fits, dots_of_names ts h.1)

pub whole_of_names : (ts : List Text) → All IsName ts → All (λ u. contains_slash u ≡ false) ts
whole_of_names [] h = tt
whole_of_names (t ∷ ts) h = (h.0.whole, whole_of_names ts h.1)

pub render-append : (ts us : List Text) → render (ts ++ us) ≡ render ts ++ render us
unfolding render
render-append [] us = refl
render-append (t ∷ ts) us = rw (render-append ts us) (cc (append_assoc t (render ts) (render us)))
