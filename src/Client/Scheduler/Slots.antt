-- ===== src/Client/Scheduler/Slots.antt =====
-- What the operations on one slot keep.
use fs.Prelude.{
  ℕ, ◌+◌, ◌≡◌, refl, Option, none, some, List, [], ◌∷◌, map, arith, All, All-append, inl, inr,
  Option-cases, num_eq,
}
use fs.Core.Error.{Fs0Result}
use fs.Client.Scheduler.{Call, RequestSlot, add_callback, call_with, complete}
use fs.Client.Scheduler.Counts.{bit, count, count-append, is_call, count-call_with}
use fs.Client.Scheduler.Invariant.{IsSettled}

module _ {Res : Type 0} where
  -- Adding a callback keeps whether there is a result, and what is settled.
  abbrev slot_of : Option (Fs0Result Res) → List ℕ → List ℕ → List (Call Res) → RequestSlot Res
  slot_of o queued issued called = record {
    result = o;
    callbacks = queued;
    issued = issued;
    called = called;
  }

  pub add-result :
      (callback : ℕ) (s : RequestSlot Res) → (add_callback callback s).result ≡ s.result
  unfolding add_callback
  add-result callback s = ground arith

  pub add-count :
      (c callback : ℕ) (s : RequestSlot Res)
      → count (is_call c) (add_callback callback s).called
          + count (num_eq c) (add_callback callback s).callbacks
        ≡ bit (num_eq c callback) + (count (is_call c) s.called + count (num_eq c) s.callbacks)
  unfolding add_callback count
  add-count c callback s = elim (Option-cases s.result) [
    | inl f ↦ ground (arith, f, count-append (num_eq c) s.callbacks (callback ∷ []))
    | inr (r, f) ↦ ground (arith, f)
  ]

  pub add-issued :
      (callback : ℕ) (s : RequestSlot Res) → (add_callback callback s).issued ≡ s.issued
  unfolding add_callback
  add-issued callback s = ground arith

  add_at-IsSettled :
      (callback : ℕ) (o : Option (Fs0Result Res)) (queued issued : List ℕ)
      (called : List (Call Res))
      → IsSettled (slot_of o queued issued called)
      → IsSettled (add_callback callback (slot_of o queued issued called))
  unfolding add_callback
  add_at-IsSettled callback none queued issued called h = h
  add_at-IsSettled callback (some r) queued issued called h = (h.0, (refl, h.1))

  pub add-IsSettled :
      (callback : ℕ) (s : RequestSlot Res) → IsSettled s → IsSettled (add_callback callback s)
  add-IsSettled callback s h = add_at-IsSettled callback s.result s.callbacks s.issued s.called h

  pub complete-count :
      (c : ℕ) (r : Fs0Result Res) (s : RequestSlot Res)
      → count (is_call c) (complete r s).called + count (num_eq c) (complete r s).callbacks
        ≡ count (is_call c) s.called + count (num_eq c) s.callbacks
  unfolding complete count
  complete-count c r s = omega (
    arith,
    count-append (is_call c) (map (call_with r) s.callbacks) s.called,
    count-call_with c r s.callbacks,
  )

  pub complete-IsSettled :
      (r : Fs0Result Res) (s : RequestSlot Res) → s.called ≡ [] → IsSettled (complete r s)
  unfolding complete
  complete-IsSettled r s h = (
    refl,
    All-append (λ call. call.result ≡ r) (map (call_with r) s.callbacks) s.called
        (all_called s.callbacks) (rw h tt),
  )
    where
      all_called : (cs : List ℕ) → All (λ call. call.result ≡ r) (map (call_with r) cs)
      all_called [] = tt
      all_called (c ∷ cs) = (refl, all_called cs)

  pub complete-issued : (r : Fs0Result Res) (s : RequestSlot Res) → (complete r s).issued ≡ s.issued
  unfolding complete
  complete-issued r s = refl
