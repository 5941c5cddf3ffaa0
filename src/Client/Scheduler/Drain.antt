-- ===== src/Client/Scheduler/Drain.antt =====
-- How the tasks of the scheduler come to their end when no new request arrives.
use fs.Prelude.{
  ℕ, suc, ◌+◌, ◌*◌, ◌<◌, ◌≤◌, ◌≡◌, ◌⊎◌, refl, ◌∙◌, ap, Option, none, some, List, [], ◌∷◌, ◌++◌,
  arith, inl, inr, Bool-cases, max, num_eq, length,
}
use fs.Prelude.Rows.{sum_by}
use fs.Core.Error.{err}
use fs.Core.Hash.{HashId}
use fs.Client.Scheduler.{
  Task, joining, opening, waiting, running, refused, finished, HashRequestScheduler, RequestSlot,
  TaskStep, joined, opened, acquired, denied, handled, failed, ended, add_callback, complete,
  remove, set_slot, advance, Reach, step,
}
use fs.Client.Scheduler.Counts.{count, is_call}
use fs.Client.Scheduler.Invariant.{present}
use fs.Client.Scheduler.Reachable.{Reach-IsScheduler, Reach-calls}
use fs.Client.Scheduler.Progress.{IsEnabled, sections_left, TaskStep-ends, Reach-progress}

sections_left_bound : (t : Task) → sections_left t ≤ 4
sections_left_bound (joining hash slot callback) = omega arith
sections_left_bound (opening hash slot callback) = omega arith
sections_left_bound (waiting hash slot) = omega arith
sections_left_bound (running hash slot) = omega arith
sections_left_bound (refused hash slot) = omega arith
sections_left_bound (finished hash slot permit) = omega arith

sum_by_bound : (ts : List Task) → sum_by sections_left ts ≤ 4 * length ts
unfolding sum_by
sum_by_bound [] = omega arith
sum_by_bound (t ∷ ts) = omega (arith, sections_left_bound t, sum_by_bound ts)

present-none : (slot : Option ℕ) → present slot ≡ 0 → slot ≡ none
present-none none h = refl
present-none (some slot) h = absurd (omega (arith, h))

module _ {Res : Type 0} where
  -- So many sections of tasks, one after another, in any order of the tasks.
  pub data Runs : ℕ → HashRequestScheduler Res → HashRequestScheduler Res → Type 0 where
    resting : {σ : HashRequestScheduler Res} → Runs 0 σ σ
    going :
        {n : ℕ} {σ ρ τ : HashRequestScheduler Res} {before after : List Task} {task : Task}
        → σ.tasks ≡ before ++ (task ∷ after)
        → TaskStep σ before after task ρ
        → Runs n ρ τ
        → Runs (suc n) σ τ

  -- No task is left, all permits are free, nothing is in flight, and each slot of the state before
  -- has called each of its callbacks as often as it was handed to it.
  pub record IsDrained (concurrency : ℕ) (before after : HashRequestScheduler Res) : Type 0 where
    pub idle : after.tasks ≡ []
    pub free : after.permits ≡ max 1 concurrency
    pub settled : (h : HashId) → after.in_flight h ≡ none
    pub answered :
        (slot callback : ℕ)
        → slot < before.next_slot
        → count (is_call callback) (after.slots slot).called
          ≡ count (num_eq callback) (before.slots slot).issued

  -- What no section changes: the slots that were given out, and what was handed to them.
  abbrev KeepsIssued : HashRequestScheduler Res → HashRequestScheduler Res → Type 0
  KeepsIssued σ τ =
      (τ.next_slot ≡ σ.next_slot) × ((i : ℕ) → (τ.slots i).issued ≡ (σ.slots i).issued)

  set_slot-issued :
      (slot i : ℕ) (f : RequestSlot Res → RequestSlot Res) (slots : ℕ → RequestSlot Res)
      → ((s : RequestSlot Res) → (f s).issued ≡ s.issued)
      → (set_slot slot f slots i).issued ≡ (slots i).issued
  set_slot-issued slot i f slots h = elim (Bool-cases (num_eq i slot)) [
    | inl p ↦ rw p (h (slots i))
    | inr p ↦ rw p refl
  ]

  add_callback-issued :
      (callback : ℕ) (s : RequestSlot Res) → (add_callback callback s).issued ≡ s.issued
  unfolding add_callback
  add_callback-issued callback s = ground arith

  TaskStep-KeepsIssued :
      (σ : HashRequestScheduler Res) (before after : List Task) (task : Task)
      (τ : HashRequestScheduler Res)
      → TaskStep σ before after task τ
      → KeepsIssued σ τ
  unfolding complete remove
  TaskStep-KeepsIssued σ before after task τ (joined {hash} {slot} {callback}) = (
    refl,
    λ i. set_slot-issued slot i (add_callback callback) σ.slots (add_callback-issued callback),
  )
  TaskStep-KeepsIssued σ before after task τ (opened {hash} {slot} {callback}) = (
    refl,
    λ i. set_slot-issued slot i (add_callback callback) σ.slots (add_callback-issued callback),
  )
  TaskStep-KeepsIssued σ before after task τ (acquired c q) = (refl, λ i. refl)
  TaskStep-KeepsIssued σ before after task τ (denied c) = (refl, λ i. refl)
  TaskStep-KeepsIssued σ before after task τ (handled {hash} {slot} r) =
      (refl, λ i. set_slot-issued slot i (complete r) σ.slots (λ s. refl))
  TaskStep-KeepsIssued σ before after task τ (failed {hash} {slot} x) =
      (refl, λ i. set_slot-issued slot i (complete (err x)) σ.slots (λ s. refl))
  TaskStep-KeepsIssued σ before after task τ ended = (refl, λ i. refl)

  Reach-IsDrained :
      (concurrency : ℕ) (σ τ : HashRequestScheduler Res)
      → Reach concurrency τ
      → KeepsIssued σ τ
      → τ.tasks ≡ []
      → IsDrained concurrency σ τ
  unfolding count
  Reach-IsDrained concurrency σ τ r (slots, issued) e =
      let i = Reach-IsScheduler concurrency τ r in
      record {
        idle = e;
        free = ground (arith, e, i.permitted);
        settled = λ h. present-none (τ.in_flight h) (ground (arith, e, i.owned h));
        answered = λ slot callback lt.
            (Reach-calls concurrency τ slot callback r e (omega (arith, lt, slots))).0
            ∙ ap (count (num_eq callback)) (issued slot);
      }

  Runs-outcome :
      (concurrency n : ℕ) (σ τ : HashRequestScheduler Res)
      → Reach concurrency σ
      → Runs n σ τ
      → (n + sum_by sections_left τ.tasks ≤ sum_by sections_left σ.tasks)
        × Reach concurrency τ
        × KeepsIssued σ τ
  Runs-outcome concurrency n σ τ r resting = (omega arith, r, (refl, λ i. refl))
  Runs-outcome concurrency n σ τ r (going {n = m} {ρ = ρ} {before} {after} {task} at s rest) =
      let (less, reach, (slots, issued)) =
        Runs-outcome concurrency m ρ τ (step r (advance at s)) rest in
      let (slots', issued') = TaskStep-KeepsIssued σ before after task ρ s in
      (
        omega (arith, less, TaskStep-ends σ before after task ρ at s),
        reach,
        (slots ∙ slots', λ i. issued i ∙ issued' i),
      )

  -- From a state that the scheduler gets into, and in whatever order the sections of the tasks run,
  -- no more than four sections run for each task; and a run either can go on, or it has drained the
  -- scheduler: no task is left, all permits are free, nothing is in flight, and each callback was
  -- called as often as it had been handed over.
  pub Runs-drain :
      (concurrency n : ℕ) (σ τ : HashRequestScheduler Res)
      → Reach concurrency σ
      → Runs n σ τ
      → (n ≤ 4 * length σ.tasks) × (IsDrained concurrency σ τ ⊎ IsEnabled τ)
  Runs-drain concurrency n σ τ r runs =
      let (less, reach, kept) = Runs-outcome concurrency n σ τ r runs in
      (
        omega (arith, less, sum_by_bound σ.tasks),
        elim (Reach-progress concurrency τ reach) [
          | inl e ↦ inl (Reach-IsDrained concurrency σ τ reach kept e)
          | inr k ↦ inr k
        ],
      )
