-- ===== src/Client/Scheduler/Invariant.antt =====
-- What holds of the scheduler in every state that it gets into.
use fs.Prelude.{
  ℕ, ◌+◌, ◌≤◌, ◌≡◌, refl, Bool, false, Option, none, some, [], max, arith, All, inl, inr,
  Bool-cases, Option-cases, num_eq, ltb,
}
use fs.Core.Hash.{HashId, hash_eq, hash_eq_iff}
use fs.Client.Scheduler.{
  RequestSlot, HashRequestScheduler, new_scheduler, join_slot, open_slot, enqueue,
}
use fs.Client.Scheduler.Counts.{bit, count, owns, will_complete, has_permit, will_add, is_call}

abbrev pub present : Option ℕ → ℕ
present none = 0
present (some slot) = 1

module _ {Res : Type 0} where
  -- A slot that was given out and has no result yet.
  abbrev pub is_open : HashRequestScheduler Res → ℕ → Bool
  is_open σ i = elim (σ.slots i).result [ none ↦ ltb i σ.next_slot | some r ↦ false ]

  -- Before the result nothing was called; after it nothing is queued and all calls got it.
  abbrev pub IsSettled : RequestSlot Res → Type 0
  IsSettled s = elim s.result [
    | none ↦ s.called ≡ []
    | some r ↦ (s.callbacks ≡ []) × All (λ call. call.result ≡ r) s.called
  ]

  pub record IsScheduler (concurrency : ℕ) (σ : HashRequestScheduler Res) : Type 0 where
    -- A hash has one owner when it is in flight, and otherwise none.
    pub owned : (h : HashId) → count (owns h) σ.tasks ≡ present (σ.in_flight h)
    -- The permits are free or with a task.
    pub permitted : σ.permits + count has_permit σ.tasks ≡ max 1 concurrency
    -- The slots that were not given out have no result.
    pub fresh : (i : ℕ) → σ.next_slot ≤ i → (σ.slots i).result ≡ none
    -- A slot without a result has one task that will complete it.
    pub opened_by : (i : ℕ) → count (will_complete i) σ.tasks ≡ bit (is_open σ i)
    -- A callback was called, is queued, or is about to be handed over.
    pub conserved :
        (i c : ℕ)
        → count (is_call c) (σ.slots i).called
            + count (num_eq c) (σ.slots i).callbacks
            + count (will_add i c) σ.tasks
          ≡ count (num_eq c) (σ.slots i).issued
    pub settled : (i : ℕ) → IsSettled (σ.slots i)

  pub start-IsScheduler : (concurrency : ℕ) → IsScheduler concurrency (new_scheduler concurrency)
  unfolding count
  start-IsScheduler concurrency = record {
    owned = λ h. refl;
    permitted = omega arith;
    fresh = λ i k. refl;
    opened_by = λ i. ground arith;
    conserved = λ i c. refl;
    settled = λ i. refl;
  }

  join-IsScheduler :
      (concurrency : ℕ) (hash : HashId) (slot callback : ℕ) (σ : HashRequestScheduler Res)
      → IsScheduler concurrency σ
      → IsScheduler concurrency (join_slot hash slot callback σ)
  unfolding count
  join-IsScheduler concurrency hash slot callback σ h = record {
    owned = λ k. omega (arith, h.owned k);
    permitted = omega (arith, h.permitted);
    fresh = λ i k. ground (arith, h.fresh i k);
    opened_by = λ i. ground (arith, h.opened_by i);
    conserved = λ i c. ground (arith, h.conserved i c);
    settled = λ i. ground (arith, h.settled i);
  }

  open-IsScheduler :
      (concurrency : ℕ) (hash : HashId) (callback : ℕ) (σ : HashRequestScheduler Res)
      → IsScheduler concurrency σ
      → σ.in_flight hash ≡ none
      → IsScheduler concurrency (open_slot hash callback σ)
  unfolding count
  open-IsScheduler concurrency hash callback σ h f = record {
    owned = λ k. open-owned k;
    permitted = omega (arith, h.permitted);
    fresh = λ i k. ground (arith, h.fresh i);
    opened_by = λ i. ground (arith, h.opened_by i, h.fresh i);
    conserved = λ i c. ground (arith, h.conserved i c);
    settled = λ i. ground (arith, h.settled i);
  }
    where
      open-owned :
          (k : HashId)
          → count (owns k) (open_slot hash callback σ).tasks
            ≡ present ((open_slot hash callback σ).in_flight k)
      open-owned k = elim (Bool-cases (hash_eq k hash)) [
        | inl e ↦ ground (arith, e, h.owned k, (hash_eq_iff k hash).0 e, f)
        | inr e ↦ ground (arith, e, h.owned k)
      ]

  pub enqueue-IsScheduler :
      (concurrency : ℕ) (hash : HashId) (callback : ℕ) (σ : HashRequestScheduler Res)
      → IsScheduler concurrency σ
      → IsScheduler concurrency (enqueue hash callback σ)
  enqueue-IsScheduler concurrency hash callback σ h = elim (Option-cases (σ.in_flight hash)) [
    | inr (slot, f) ↦ rw (enqueue_hit slot f) (join-IsScheduler concurrency hash slot callback σ h)
    | inl f ↦ rw (enqueue_miss f) (open-IsScheduler concurrency hash callback σ h f)
  ]
    where
      enqueue_hit :
          (slot : ℕ)
          → σ.in_flight hash ≡ some slot
          → enqueue hash callback σ ≡ join_slot hash slot callback σ
      enqueue_hit slot f = unfold enqueue in ground (arith, f)

      enqueue_miss : σ.in_flight hash ≡ none → enqueue hash callback σ ≡ open_slot hash callback σ
      enqueue_miss f = unfold enqueue in ground (arith, f)

pub present_le : (o : Option ℕ) → present o ≤ 1
present_le none = omega arith
present_le (some slot) = omega arith
