-- ===== src/Volume/Disk/Loops.antt =====
-- What the read and write loops of crates/fs0-volume/src/io_platform.rs do, on any system calls that
-- behave as documented.
use fs.Prelude.{
  ℕ, zero, suc, ◌+◌, ◌-◌, ◌≤◌, ◌<◌, ◌≡◌, refl, ap, ◌∙◌, inl, inr, List, [], ◌∷◌, ◌++◌, length, take,
  drop, arith,
}
use fs.Core.Error.{Fs0Result, ok, err}
use fs.Volume.Disk.{
  Disk, Os, Outside, bytes_at, write_loop, read_loop, write_at, read_at, after_write, after_read,
  prepend,
}

pub length-drop : (n : ℕ) (bs : List ℕ) → length (drop n bs) ≡ length bs - n
length-drop zero bs = omega arith
length-drop (suc n) [] = omega arith
length-drop (suc n) (b ∷ bs) = omega (arith, length-drop n bs)

take-append-drop : (n : ℕ) (bs : List ℕ) → take n bs ++ drop n bs ≡ bs
take-append-drop zero bs = refl
take-append-drop (suc n) [] = refl
take-append-drop (suc n) (b ∷ bs) = ap (λ (t : List ℕ). b ∷ t) (take-append-drop n bs)

pub bytes_at-same :
    (a b : Disk) (i o n : ℕ)
    → ((p : ℕ) → o ≤ p → p < o + n → a i p ≡ b i p)
    → bytes_at a i o n ≡ bytes_at b i o n
unfolding bytes_at
bytes_at-same a b i o zero h = refl
bytes_at-same a b i o (suc n) h = cc (
  h o (omega arith) (omega arith),
  bytes_at-same a b i (o + 1) n (λ p lo hi. h p (omega arith) (omega arith)),
)

pub length-bytes_at : (d : Disk) (i o n : ℕ) → length (bytes_at d i o n) ≡ n
unfolding bytes_at
length-bytes_at d i o zero = refl
length-bytes_at d i o (suc n) = ap suc (length-bytes_at d i (o + 1) n)

-- A range in two pieces.
bytes_at-append :
    (d : Disk) (i o n m k : ℕ)
    → n + m ≡ k
    → bytes_at d i o k ≡ bytes_at d i o n ++ bytes_at d i (o + n) m
unfolding bytes_at
bytes_at-append d i o zero m k e =
    let e' : m ≡ k = omega arith in let z : o + 0 ≡ o = omega arith in rw (z, e')
bytes_at-append d i o (suc n) m zero e = absurd (omega arith)
bytes_at-append d i o (suc n) m (suc k) e =
    let z : o + suc n ≡ o + 1 + n = omega arith in
    rw z (ap (λ (t : List ℕ). d i o ∷ t) (bytes_at-append d i (o + 1) n m k (omega arith)))

module _ (os : Os) where
  write_loop-frame :
      (fuel i o : ℕ) (bs : List ℕ) (d : Disk) (j p : ℕ)
      → Outside i o (length bs) j p
      → (write_loop os fuel i o bs d).1 j p ≡ d j p
  unfolding write_loop
  write_loop-frame fuel i o [] d j p h = refl
  write_loop-frame zero i o (b ∷ bs) d j p h = refl
  write_loop-frame (suc fuel) i o (b ∷ bs) d j p h =
      round (os.pwrite i o (b ∷ bs) d) (os.pwrite_frame i o (b ∷ bs) d j p h)
        (λ n d' below. write_loop-frame fuel i (o + n) (drop n (b ∷ bs)) d' j p below)
        (λ n e. os.pwrite_count i o (b ∷ bs) d n e)
    where
      round :
          (r : Fs0Result ℕ × Disk)
          → r.1 j p ≡ d j p
          → ((n : ℕ) (d' : Disk)
              → Outside i (o + n) (length (drop n (b ∷ bs))) j p
              → (write_loop os fuel i (o + n) (drop n (b ∷ bs)) d').1 j p ≡ d' j p)
          → ((n : ℕ) → r.0 ≡ ok n → n ≤ suc (length bs))
          → (after_write os (λ n. write_loop os fuel i (o + n) (drop n (b ∷ bs))) r).1 j p ≡ d j p
      round (err e, d') same next count = same
      round (ok zero, d') same next count = same
      round (ok (suc n), d') same next count =
          next (suc n) d' (narrow (suc n) h (count (suc n) refl)) ∙ same
        where
          narrow :
              (n : ℕ)
              → Outside i o (suc (length bs)) j p
              → n ≤ suc (length bs)
              → Outside i (o + n) (length (drop n (b ∷ bs))) j p
          narrow n (inl x) c = inl x
          narrow n (inr (inl x)) c = inr (inl (omega arith))
          narrow n (inr (inr x)) c = inr (inr (omega (arith, length-drop n (b ∷ bs))))

  -- The two pieces of a buffer that a round splits.
  pieces :
      (d d' : Disk) (i o n : ℕ) (buf : List ℕ)
      → n ≤ length buf
      → bytes_at d i o n ≡ take n buf
      → ((p : ℕ) → o ≤ p → p < o + n → d' i p ≡ d i p)
      → bytes_at d' i (o + n) (length (drop n buf)) ≡ drop n buf
      → bytes_at d' i o (length buf) ≡ buf
  pieces d d' i o n buf c first same rest =
      bytes_at-append d' i o n (length (drop n buf)) (length buf) (omega (arith, length-drop n buf))
      ∙ (cc (bytes_at-same d' d i o n same, first, rest, take-append-drop n buf))

  -- A write that succeeds has written the whole buffer.
  pub write_loop-ok :
      (fuel i o : ℕ) (bs : List ℕ) (d : Disk)
      → (write_loop os fuel i o bs d).0 ≡ ok tt
      → bytes_at (write_loop os fuel i o bs d).1 i o (length bs) ≡ bs
  unfolding write_loop
  write_loop-ok fuel i o [] d h = unfold bytes_at in refl
  write_loop-ok zero i o (b ∷ bs) d h = cc
  write_loop-ok (suc fuel) i o (b ∷ bs) d h =
      round (os.pwrite i o (b ∷ bs) d) (os.pwrite_done i o (b ∷ bs) d)
        (os.pwrite_count i o (b ∷ bs) d) (λ n d'. write_loop-ok fuel i (o + n) (drop n (b ∷ bs)) d')
        h
    where
      next : ℕ → Disk → Fs0Result (Unit {0}) × Disk
      next n d' = write_loop os fuel i (o + n) (drop n (b ∷ bs)) d'

      round :
          (r : Fs0Result ℕ × Disk)
          → ((n : ℕ) → r.0 ≡ ok n → bytes_at r.1 i o n ≡ take n (b ∷ bs))
          → ((n : ℕ) → r.0 ≡ ok n → n ≤ suc (length bs))
          → ((n : ℕ) (d' : Disk)
              → (next n d').0 ≡ ok tt
              → bytes_at (next n d').1 i (o + n) (length (drop n (b ∷ bs))) ≡ drop n (b ∷ bs))
          → (after_write os next r).0 ≡ ok tt
          → bytes_at (after_write os next r).1 i o (suc (length bs)) ≡ b ∷ bs
      round (err e, d') first count rest done = cc
      round (ok zero, d') first count rest done = cc
      round (ok (suc n), d') first count rest done =
          pieces d' (next (suc n) d').1 i o (suc n) (b ∷ bs) (count (suc n) refl)
            (first (suc n) refl)
            (λ p lo hi.
              write_loop-frame fuel i (o + suc n) (drop (suc n) (b ∷ bs)) d' i p
                (inr (inl (omega arith))))
            (rest (suc n) d' done)

  -- Any fuel of at least the length of the buffer gives the same run.
  pub write_loop-fuel :
      (f g i o : ℕ) (bs : List ℕ) (d : Disk)
      → length bs ≤ f
      → length bs ≤ g
      → write_loop os f i o bs d ≡ write_loop os g i o bs d
  unfolding write_loop
  write_loop-fuel f g i o [] d hf hg = refl
  write_loop-fuel zero g i o (b ∷ bs) d hf hg = absurd (omega arith)
  write_loop-fuel (suc f) zero i o (b ∷ bs) d hf hg = absurd (omega arith)
  write_loop-fuel (suc f) (suc g) i o (b ∷ bs) d hf hg =
      round (os.pwrite i o (b ∷ bs) d) (λ n d' positive.
        write_loop-fuel f g i (o + n) (drop n (b ∷ bs)) d' (omega (arith, length-drop n (b ∷ bs)))
          (omega (arith, length-drop n (b ∷ bs))))
    where
      next : ℕ → ℕ → Disk → Fs0Result (Unit {0}) × Disk
      next fuel n d' = write_loop os fuel i (o + n) (drop n (b ∷ bs)) d'

      round :
          (r : Fs0Result ℕ × Disk)
          → ((n : ℕ) (d' : Disk) → 0 < n → next f n d' ≡ next g n d')
          → after_write os (next f) r ≡ after_write os (next g) r
      round (err e, d') same = refl
      round (ok zero, d') same = refl
      round (ok (suc n), d') same = same (suc n) d' (omega arith)

  -- Any fuel of at least the size of the buffer gives the same read.
  pub read_loop-fuel :
      (f g i o n : ℕ) (d : Disk) → n ≤ f → n ≤ g → read_loop os f i o n d ≡ read_loop os g i o n d
  unfolding read_loop
  read_loop-fuel f g i o zero d hf hg = refl
  read_loop-fuel zero g i o (suc n) d hf hg = absurd (omega (arith, hf))
  read_loop-fuel (suc f) zero i o (suc n) d hf hg = absurd (omega (arith, hg))
  read_loop-fuel (suc f) (suc g) i o (suc n) d hf hg = round (os.pread i o (suc n) d) (λ k positive.
      read_loop-fuel f g i (o + k) (suc n - k) d (omega (arith, hf, positive))
        (omega (arith, hg, positive)))
    where
      next : ℕ → List ℕ → Fs0Result (List ℕ)
      next fuel cs = prepend os cs (read_loop os fuel i (o + length cs) (suc n - length cs) d)

      round :
          (r : Fs0Result (List ℕ))
          → ((k : ℕ)
              → 0 < k
              → read_loop os f i (o + k) (suc n - k) d ≡ read_loop os g i (o + k) (suc n - k) d)
          → after_read os (next f) r ≡ after_read os (next g) r
      round (err e) same = refl
      round (ok []) same = refl
      round (ok (b ∷ bs)) same = ap (prepend os (b ∷ bs)) (same (length (b ∷ bs)) (omega arith))

  -- A read that succeeds has filled the buffer with the bytes of the range.
  pub read_loop-ok :
      (fuel i o n : ℕ) (d : Disk) (bs : List ℕ)
      → read_loop os fuel i o n d ≡ ok bs
      → bs ≡ bytes_at d i o n
  unfolding read_loop
  read_loop-ok fuel i o zero d bs h = unfold bytes_at in cc
  read_loop-ok zero i o (suc n) d bs h = cc
  read_loop-ok (suc fuel) i o (suc n) d bs h =
      round (os.pread i o (suc n) d) (os.pread_done i o (suc n) d)
        (λ k cs. read_loop-ok fuel i (o + k) (suc n - k) d cs) h
    where
      next : List ℕ → Fs0Result (List ℕ)
      next cs = prepend os cs (read_loop os fuel i (o + length cs) (suc n - length cs) d)

      join :
          (cs : List ℕ) (r : Fs0Result (List ℕ))
          → prepend os cs r ≡ ok bs
          → length cs ≤ suc n
          → cs ≡ bytes_at d i o (length cs)
          → ((ds : List ℕ) → r ≡ ok ds → ds ≡ bytes_at d i (o + length cs) (suc n - length cs))
          → bs ≡ bytes_at d i o (suc n)
      join cs (err e) e' c first rest = cc
      join cs (ok ds) e' c first rest = cc (
        rest ds refl,
        bytes_at-append d i o (length cs) (suc n - length cs) (suc n) (omega arith),
      )

      round :
          (r : Fs0Result (List ℕ))
          → ((cs : List ℕ) → r ≡ ok cs → (length cs ≤ suc n) × (cs ≡ bytes_at d i o (length cs)))
          → ((k : ℕ) (cs : List ℕ)
              → read_loop os fuel i (o + k) (suc n - k) d ≡ ok cs
              → cs ≡ bytes_at d i (o + k) (suc n - k))
          → after_read os next r ≡ ok bs
          → bs ≡ bytes_at d i o (suc n)
      round (err e) done rest h' = cc
      round (ok []) done rest h' = cc
      round (ok (c ∷ cs)) done rest h' =
          let p = done (c ∷ cs) refl in
          join (c ∷ cs) (read_loop os fuel i (o + suc (length cs)) (suc n - suc (length cs)) d) h'
            p.0 p.1 (rest (suc (length cs)))

  -- Whether it succeeds or fails, `write_at` touches no byte outside its range.
  pub write_at-frame :
      (i o : ℕ) (bs : List ℕ) (d : Disk) (j p : ℕ)
      → Outside i o (length bs) j p
      → (write_at os i o bs d).1 j p ≡ d j p
  unfolding write_at
  write_at-frame i o bs d j p h = write_loop-frame (length bs) i o bs d j p h

  pub write_at-ok :
      (i o : ℕ) (bs : List ℕ) (d : Disk)
      → (write_at os i o bs d).0 ≡ ok tt
      → bytes_at (write_at os i o bs d).1 i o (length bs) ≡ bs
  unfolding write_at
  write_at-ok i o bs d = write_loop-ok (length bs) i o bs d

  pub read_at-ok :
      (i o n : ℕ) (d : Disk) (bs : List ℕ) → read_at os i o n d ≡ ok bs → bs ≡ bytes_at d i o n
  unfolding read_at
  read_at-ok i o n d bs = read_loop-ok n i o n d bs

  -- After a write that succeeds, a read of its range that succeeds returns the bytes written.
  pub read_at-write_at :
      (i o : ℕ) (bs cs : List ℕ) (d : Disk)
      → (write_at os i o bs d).0 ≡ ok tt
      → read_at os i o (length bs) (write_at os i o bs d).1 ≡ ok cs
      → cs ≡ bs
  read_at-write_at i o bs cs d w r =
      read_at-ok i o (length bs) (write_at os i o bs d).1 cs r ∙ write_at-ok i o bs d w
