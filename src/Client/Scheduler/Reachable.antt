-- ===== src/Client/Scheduler/Reachable.antt =====
-- The states that the scheduler gets into: its executions, and the calls of the callbacks.
use fs.Prelude.{
  ℕ, ◌<◌, ◌≤◌, ◌≡◌, true, false, List, [], ◌∷◌, ◌++◌, max, arith, inl, inr, Option-cases, num_eq,
}
use fs.Core.Error.{err}
use fs.Core.Hash.{HashId}
use fs.Client.Scheduler.{
  Task, HashRequestScheduler, TaskStep, joined, opened, acquired, denied, handled, failed, ended,
  Step, request, advance, closing, Reach, start, step,
}
use fs.Client.Scheduler.Counts.{
  count, owns, has_permit, is_running, runs, is_call, count_le, runs-owns, running-permit,
}
use fs.Client.Scheduler.Invariant.{present_le, IsScheduler, start-IsScheduler, enqueue-IsScheduler}
use fs.Client.Scheduler.Preserved.{
  joined-IsScheduler, opened-IsScheduler, acquired-IsScheduler, denied-IsScheduler,
  completed-IsScheduler, ended-IsScheduler,
}

module _ {Res : Type 0} (concurrency : ℕ) where
  advance-IsScheduler :
      (σ : HashRequestScheduler Res) (before after : List Task) (task : Task)
      (τ : HashRequestScheduler Res)
      → IsScheduler concurrency σ
      → σ.tasks ≡ before ++ (task ∷ after)
      → TaskStep σ before after task τ
      → IsScheduler concurrency τ
  advance-IsScheduler σ before after task τ h e (joined {hash} {slot} {callback}) =
      joined-IsScheduler concurrency σ before after hash slot callback h e
  advance-IsScheduler σ before after task τ h e (opened {hash} {slot} {callback}) =
      opened-IsScheduler concurrency σ before after hash slot callback h e
  advance-IsScheduler σ before after task τ h e (acquired {hash} {slot} {permits} c q) =
      acquired-IsScheduler concurrency σ before after hash slot permits h e q
  advance-IsScheduler σ before after task τ h e (denied {hash} {slot} c) =
      denied-IsScheduler concurrency σ before after hash slot h e
  advance-IsScheduler σ before after task τ h e (handled {hash} {slot} r) =
      completed-IsScheduler concurrency σ before after hash slot true r h e
  advance-IsScheduler σ before after task τ h e (failed {hash} {slot} x) =
      completed-IsScheduler concurrency σ before after hash slot false (err x) h e
  advance-IsScheduler σ before after task τ h e (ended {hash} {slot} {permit}) =
      ended-IsScheduler concurrency σ before after hash slot permit h e

  Step-IsScheduler :
      (σ τ : HashRequestScheduler Res)
      → IsScheduler concurrency σ
      → Step σ τ
      → IsScheduler concurrency τ
  Step-IsScheduler σ τ h (request hash callback) = enqueue-IsScheduler concurrency hash callback σ h
  Step-IsScheduler σ τ h (advance {before} {after} {task} e s) =
      advance-IsScheduler σ before after task τ h e s
  Step-IsScheduler σ τ h closing = record {
    owned = h.owned;
    permitted = h.permitted;
    fresh = h.fresh;
    opened_by = h.opened_by;
    conserved = h.conserved;
    settled = h.settled;
  }

  pub Reach-IsScheduler :
      (σ : HashRequestScheduler Res) → Reach concurrency σ → IsScheduler concurrency σ
  Reach-IsScheduler σ start = start-IsScheduler concurrency
  Reach-IsScheduler σ (step {σ = ρ} r s) = Step-IsScheduler ρ σ (Reach-IsScheduler ρ r) s

  -- In every state that the scheduler gets into, the handler runs at most once for a hash, and no
  -- more often at a time than the concurrency, which is at least one.
  pub Reach-executions :
      (σ : HashRequestScheduler Res) (h : HashId)
      → Reach concurrency σ
      → (count (runs h) σ.tasks ≤ 1) × (count is_running σ.tasks ≤ max 1 concurrency)
  Reach-executions σ h r =
      let i = Reach-IsScheduler σ r in
      (
        omega (
          arith,
          count_le (runs h) (owns h) (runs-owns h) σ.tasks,
          i.owned h,
          present_le (σ.in_flight h),
        ),
        omega (arith, count_le is_running has_permit running-permit σ.tasks, i.permitted),
      )

  -- In every state that the scheduler gets into and that has no task left, each slot that was given
  -- out has called each of its callbacks as often as it was handed to it, and queues none.
  pub Reach-calls :
      (σ : HashRequestScheduler Res) (slot callback : ℕ)
      → Reach concurrency σ
      → σ.tasks ≡ []
      → slot < σ.next_slot
      → (count (is_call callback) (σ.slots slot).called
          ≡ count (num_eq callback) (σ.slots slot).issued)
        × ((σ.slots slot).callbacks ≡ [])
  unfolding count
  Reach-calls σ slot callback r e k =
      let i = Reach-IsScheduler σ r in
      elim (Option-cases (σ.slots slot).result) [
        | inl f ↦ absurd (ground (arith, f, e, k, i.opened_by slot))
        | inr (result, f) ↦
            let queued : (σ.slots slot).callbacks ≡ [] = ground (arith, f, i.settled slot) in
            (ground (arith, e, queued, i.conserved slot callback), queued)
      ]
