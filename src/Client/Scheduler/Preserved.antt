-- ===== src/Client/Scheduler/Preserved.antt =====
-- Every step of a task keeps the invariant of the scheduler.
use fs.Prelude.{
  ℕ, suc, ◌+◌, ◌<◌, ◌≡◌, refl, Bool, true, false, none, List, [], ◌∷◌, ◌++◌, arith, inl, inr,
  Bool-cases, Option-cases, num_eq,
}
use fs.Core.Error.{Fs0Result}
use fs.Core.Hash.{HashId, hash_eq}
use fs.Client.Scheduler.{
  RequestSlot, Task, joining, opening, waiting, running, refused, finished, HashRequestScheduler,
  set_in_flight, add_callback, complete, with_slot, remove, with_tasks, acquire,
}
use fs.Client.Scheduler.Counts.{bit, count, count-middle, owns, will_complete, has_permit, will_add}
use fs.Client.Scheduler.Slots.{
  add-result, add-count, add-issued, add-IsSettled, complete-count, complete-issued,
  complete-IsSettled,
}
use fs.Client.Scheduler.Invariant.{present, IsSettled, IsScheduler}

module _ {Res : Type 0} (concurrency : ℕ) (σ : HashRequestScheduler Res)
    (before after : List Task) where
  counted :
      (task : Task) (p : Task → Bool)
      → σ.tasks ≡ before ++ (task ∷ after)
      → count p σ.tasks ≡ bit (p task) + count p (before ++ after)
  counted task p e = rw e (count-middle p before after task)

  pub acquired-IsScheduler :
      (hash : HashId) (slot permits : ℕ)
      → IsScheduler concurrency σ
      → σ.tasks ≡ before ++ (waiting hash slot ∷ after)
      → σ.permits ≡ suc permits
      → IsScheduler concurrency (acquire permits (before ++ (running hash slot ∷ after)) σ)
  acquired-IsScheduler hash slot permits h e q =
      let was = λ (p : Task → Bool). counted (waiting hash slot) p e in
      let now = λ (p : Task → Bool). count-middle p before after (running hash slot) in
      record {
        owned = λ k. omega (arith, h.owned k, was (owns k), now (owns k));
        permitted = omega (arith, h.permitted, q, was has_permit, now has_permit);
        fresh = h.fresh;
        opened_by = λ i. omega (arith, h.opened_by i, was (will_complete i), now (will_complete i));
        conserved = λ i c. omega (arith, h.conserved i c, was (will_add i c), now (will_add i c));
        settled = h.settled;
      }

  pub denied-IsScheduler :
      (hash : HashId) (slot : ℕ)
      → IsScheduler concurrency σ
      → σ.tasks ≡ before ++ (waiting hash slot ∷ after)
      → IsScheduler concurrency (with_tasks (before ++ (refused hash slot ∷ after)) σ)
  denied-IsScheduler hash slot h e =
      let was = λ (p : Task → Bool). counted (waiting hash slot) p e in
      let now = λ (p : Task → Bool). count-middle p before after (refused hash slot) in
      record {
        owned = λ k. omega (arith, h.owned k, was (owns k), now (owns k));
        permitted = omega (arith, h.permitted, was has_permit, now has_permit);
        fresh = h.fresh;
        opened_by = λ i. omega (arith, h.opened_by i, was (will_complete i), now (will_complete i));
        conserved = λ i c. omega (arith, h.conserved i c, was (will_add i c), now (will_add i c));
        settled = h.settled;
      }

  pub opened-IsScheduler :
      (hash : HashId) (slot callback : ℕ)
      → IsScheduler concurrency σ
      → σ.tasks ≡ before ++ (opening hash slot callback ∷ after)
      → IsScheduler concurrency
          (with_slot slot (add_callback callback) (before ++ (waiting hash slot ∷ after)) σ)
  opened-IsScheduler hash slot callback h e =
      let was = λ (p : Task → Bool). counted (opening hash slot callback) p e in
      let now = λ (p : Task → Bool). count-middle p before after (waiting hash slot) in
      let res = λ (i : ℕ). add-result callback (σ.slots i) in
      record {
        owned = λ k. omega (arith, h.owned k, was (owns k), now (owns k));
        permitted = omega (arith, h.permitted, was has_permit, now has_permit);
        fresh = λ i k. ground (arith, h.fresh i k, add-result callback (σ.slots i));
        opened_by = λ i. ground (
          arith,
          h.opened_by i,
          was (will_complete i),
          now (will_complete i),
          add-result callback (σ.slots i),
        );
        conserved = λ i c. ground (
          arith,
          h.conserved i c,
          was (will_add i c),
          now (will_add i c),
          add-count c callback (σ.slots i),
          add-issued callback (σ.slots i),
        );
        settled =
            λ i. ground (arith, h.settled i, add-IsSettled callback (σ.slots i) (h.settled i));
      }

  pub joined-IsScheduler :
      (hash : HashId) (slot callback : ℕ)
      → IsScheduler concurrency σ
      → σ.tasks ≡ before ++ (joining hash slot callback ∷ after)
      → IsScheduler concurrency (with_slot slot (add_callback callback) (before ++ after) σ)
  joined-IsScheduler hash slot callback h e =
      let was = λ (p : Task → Bool). counted (joining hash slot callback) p e in
      record {
        owned = λ k. omega (arith, h.owned k, was (owns k));
        permitted = omega (arith, h.permitted, was has_permit);
        fresh = λ i k. ground (arith, h.fresh i k, add-result callback (σ.slots i));
        opened_by = λ i.
            ground (arith, h.opened_by i, was (will_complete i), add-result callback (σ.slots i));
        conserved = λ i c. ground (
          arith,
          h.conserved i c,
          was (will_add i c),
          add-count c callback (σ.slots i),
          add-issued callback (σ.slots i),
        );
        settled =
            λ i. ground (arith, h.settled i, add-IsSettled callback (σ.slots i) (h.settled i));
      }

  -- The owner that completes its slot: at the handler with a permit, and refused one without.
  abbrev owner : HashId → ℕ → Bool → Task
  owner hash slot true = running hash slot
  owner hash slot false = refused hash slot

  owner-open :
      (hash : HashId) (slot : ℕ) (permit : Bool)
      → IsScheduler concurrency σ
      → σ.tasks ≡ before ++ (owner hash slot permit ∷ after)
      → ((σ.slots slot).result ≡ none) × (slot < σ.next_slot)
  owner-open hash slot true h e =
      ground (arith, h.opened_by slot, counted (running hash slot) (will_complete slot) e)
  owner-open hash slot false h e =
      ground (arith, h.opened_by slot, counted (refused hash slot) (will_complete slot) e)

  uncalled : (s : RequestSlot Res) → IsSettled s → s.result ≡ none → s.called ≡ []
  uncalled s h e = ground (arith, h, e)

  owner-owns :
      (k hash : HashId) (slot : ℕ) (permit : Bool)
      → owns k (owner hash slot permit) ≡ hash_eq k hash
  owner-owns k hash slot true = refl
  owner-owns k hash slot false = refl

  owner-permit :
      (hash : HashId) (slot : ℕ) (permit : Bool) → has_permit (owner hash slot permit) ≡ permit
  owner-permit hash slot true = refl
  owner-permit hash slot false = refl

  owner-completes :
      (i : ℕ) (hash : HashId) (slot : ℕ) (permit : Bool)
      → will_complete i (owner hash slot permit) ≡ num_eq i slot
  owner-completes i hash slot true = refl
  owner-completes i hash slot false = refl

  owner-adds :
      (i c : ℕ) (hash : HashId) (slot : ℕ) (permit : Bool)
      → will_add i c (owner hash slot permit) ≡ false
  owner-adds i c hash slot true = refl
  owner-adds i c hash slot false = refl

  pub completed-IsScheduler :
      (hash : HashId) (slot : ℕ) (permit : Bool) (r : Fs0Result Res)
      → IsScheduler concurrency σ
      → σ.tasks ≡ before ++ (owner hash slot permit ∷ after)
      → IsScheduler concurrency
          (with_slot slot (complete r) (before ++ (finished hash slot permit ∷ after)) σ)
  completed-IsScheduler hash slot permit r h e =
      let was = λ (p : Task → Bool). counted (owner hash slot permit) p e in
      let now = λ (p : Task → Bool). count-middle p before after (finished hash slot permit) in
      let (none_yet, given) = owner-open hash slot permit h e in
      let empty = uncalled (σ.slots slot) (h.settled slot) none_yet in
      record {
        owned = λ k.
            ground (arith, h.owned k, was (owns k), now (owns k), owner-owns k hash slot permit);
        permitted =
            ground
              (arith, h.permitted, was has_permit, now has_permit, owner-permit hash slot permit);
        fresh = λ i k. unfold complete in ground (arith, h.fresh i k, given);
        opened_by = λ i.
            unfold complete in
            ground (
              arith,
              h.opened_by i,
              was (will_complete i),
              now (will_complete i),
              owner-completes i hash slot permit,
              none_yet,
              given,
            );
        conserved = λ i c. ground (
          arith,
          h.conserved i c,
          was (will_add i c),
          now (will_add i c),
          owner-adds i c hash slot permit,
          complete-count c r (σ.slots i),
          complete-issued r (σ.slots i),
        );
        settled = λ i. ground (arith, h.settled i, complete-IsSettled r (σ.slots i));
      }

  pub ended-IsScheduler :
      (hash : HashId) (slot : ℕ) (permit : Bool)
      → IsScheduler concurrency σ
      → σ.tasks ≡ before ++ (finished hash slot permit ∷ after)
      → IsScheduler concurrency (remove hash permit (before ++ after) σ)
  unfolding remove
  ended-IsScheduler hash slot permit h e =
      let was = λ (p : Task → Bool). counted (finished hash slot permit) p e in
      record {
        owned = λ k. ended-owned k;
        permitted = ground (arith, h.permitted, was has_permit);
        fresh = h.fresh;
        opened_by = λ i. omega (arith, h.opened_by i, was (will_complete i));
        conserved = λ i c. omega (arith, h.conserved i c, was (will_add i c));
        settled = h.settled;
      }
    where
      ended-owned :
          (k : HashId)
          → count (owns k) (before ++ after) ≡ present (set_in_flight hash none σ.in_flight k)
      ended-owned k = elim (Bool-cases (hash_eq k hash)) [
        | inl q ↦ ground (
          arith,
          q,
          h.owned k,
          counted (finished hash slot permit) (owns k) e,
          Option-cases (σ.in_flight k),
        )
        | inr q ↦ ground (arith, q, h.owned k, counted (finished hash slot permit) (owns k) e)
      ]
