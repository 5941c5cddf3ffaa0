-- ===== src/Client/Scheduler/Progress.antt =====
-- The tasks of the scheduler come to their end.
use fs.Prelude.{
  ℕ, zero, suc, ◌+◌, ◌<◌, ◌≤◌, ◌≡◌, refl, ap, ◌⊎◌, true, false, List, [], ◌∷◌, ◌++◌, arith, inl,
  inr, Bool-cases,
}
use fs.Prelude.Rows.{sum_by}
use fs.Core.Error.{err, not_found}
use fs.Core.Hash.{HashId}
use fs.Client.Scheduler.{
  Task, joining, opening, waiting, running, refused, finished, HashRequestScheduler, with_tasks,
  acquire, TaskStep, remove, joined, opened, acquired, denied, handled, failed, ended, Reach,
}
use fs.Client.Scheduler.Counts.{count, has_permit}
use fs.Client.Scheduler.Invariant.{IsScheduler}
use fs.Client.Scheduler.Reachable.{Reach-IsScheduler}

-- The sections that a task still has to run.
abbrev pub sections_left : Task → ℕ
sections_left (joining hash slot callback) = 1
sections_left (opening hash slot callback) = 4
sections_left (waiting hash slot) = 3
sections_left (running hash slot) = 2
sections_left (refused hash slot) = 2
sections_left (finished hash slot permit) = 1

sum_by-middle :
    (before after : List Task) (t : Task)
    → sum_by sections_left (before ++ (t ∷ after))
      ≡ sections_left t + sum_by sections_left (before ++ after)
unfolding sum_by
sum_by-middle [] after t = refl
sum_by-middle (b ∷ bs) after t = omega (arith, sum_by-middle bs after t)

-- A task with a permit, and what is around it.
record Holder (ts : List Task) : Type 0 where
  before : List Task
  after : List Task
  task : Task
  at : ts ≡ before ++ (task ∷ after)
  holds : has_permit task ≡ true

holder : (ts : List Task) → 1 ≤ count has_permit ts → Holder ts
unfolding count
holder [] h = absurd (omega (arith, h))
holder (t ∷ ts) h = elim (Bool-cases (has_permit t)) [
  | inl p ↦ record { before = []; after = ts; task = t; at = refl; holds = p }
  | inr p ↦
      let k = holder ts (ground (arith, p, h)) in
      record {
        before = t ∷ k.before;
        after = k.after;
        task = k.task;
        at = ap (λ (us : List Task). t ∷ us) k.at;
        holds = k.holds;
      }
]

ℕ-cases : (n : ℕ) → (n ≡ 0) ⊎ ((m : ℕ) × (n ≡ suc m))
ℕ-cases zero = inl refl
ℕ-cases (suc m) = inr (m, refl)

List-cases {ℓ} : {A : Type ℓ} (xs : List A) → (xs ≡ []) ⊎ ((y : A) × (ys : List A) × (xs ≡ y ∷ ys))
List-cases [] = inl refl
List-cases (y ∷ ys) = inr (y, ys, refl)

module _ {Res : Type 0} where
  -- A task that can run its next section.
  pub record IsEnabled (σ : HashRequestScheduler Res) : Type 0 where
    pub before : List Task
    pub after : List Task
    pub task : Task
    pub next : HashRequestScheduler Res
    pub at : σ.tasks ≡ before ++ (task ∷ after)
    pub runs : TaskStep σ before after task next

  -- Every section that a task runs leaves fewer sections to run.
  pub TaskStep-ends :
      (σ : HashRequestScheduler Res) (before after : List Task) (task : Task)
      (τ : HashRequestScheduler Res)
      → σ.tasks ≡ before ++ (task ∷ after)
      → TaskStep σ before after task τ
      → sum_by sections_left τ.tasks < sum_by sections_left σ.tasks
  TaskStep-ends σ before after task τ e (joined {hash} {slot} {callback}) =
      omega (
        arith,
        ap (sum_by sections_left) e,
        sum_by-middle before after (joining hash slot callback),
      )
  TaskStep-ends σ before after task τ e (opened {hash} {slot} {callback}) = omega (
    arith,
    ap (sum_by sections_left) e,
    sum_by-middle before after (opening hash slot callback),
    sum_by-middle before after (waiting hash slot),
  )
  TaskStep-ends σ before after task τ e (acquired {hash} {slot} {permits} c q) = omega (
    arith,
    ap (sum_by sections_left) e,
    sum_by-middle before after (waiting hash slot),
    sum_by-middle before after (running hash slot),
  )
  TaskStep-ends σ before after task τ e (denied {hash} {slot} c) = omega (
    arith,
    ap (sum_by sections_left) e,
    sum_by-middle before after (waiting hash slot),
    sum_by-middle before after (refused hash slot),
  )
  TaskStep-ends σ before after task τ e (handled {hash} {slot} r) = omega (
    arith,
    ap (sum_by sections_left) e,
    sum_by-middle before after (running hash slot),
    sum_by-middle before after (finished hash slot true),
  )
  TaskStep-ends σ before after task τ e (failed {hash} {slot} x) = omega (
    arith,
    ap (sum_by sections_left) e,
    sum_by-middle before after (refused hash slot),
    sum_by-middle before after (finished hash slot false),
  )
  TaskStep-ends σ before after task τ e (ended {hash} {slot} {permit}) =
      unfold remove in
      omega
        (arith, ap (sum_by sections_left) e, sum_by-middle before after (finished hash slot permit))

  enabled :
      (σ : HashRequestScheduler Res) (before after : List Task) (task : Task)
      → σ.tasks ≡ before ++ (task ∷ after)
      → has_permit task ≡ true
      → IsEnabled σ
  enabled σ before after (running hash slot) e h = record {
    before = before;
    after = after;
    task = running hash slot;
    next = _;
    at = e;
    runs = handled (err not_found);
  }
  enabled σ before after (finished hash slot permit) e h = record {
    before = before;
    after = after;
    task = finished hash slot permit;
    next = _;
    at = e;
    runs = ended;
  }
  enabled σ before after (joining hash slot callback) e h = absurd (ground (arith, h))
  enabled σ before after (opening hash slot callback) e h = absurd (ground (arith, h))
  enabled σ before after (waiting hash slot) e h = absurd (ground (arith, h))
  enabled σ before after (refused hash slot) e h = absurd (ground (arith, h))

  waiting-IsEnabled :
      (σ : HashRequestScheduler Res) (concurrency : ℕ) (hash : HashId) (slot : ℕ) (ts : List Task)
      → IsScheduler concurrency σ
      → σ.tasks ≡ waiting hash slot ∷ ts
      → IsEnabled σ
  waiting-IsEnabled σ concurrency hash slot ts i e = elim (Bool-cases σ.closed) [
    | inl c ↦ record {
      before = [];
      after = ts;
      task = waiting hash slot;
      next = with_tasks (refused hash slot ∷ ts) σ;
      at = e;
      runs = denied c;
    }
    | inr c ↦ elim (ℕ-cases σ.permits) [
      | inr (permits, q) ↦ record {
        before = [];
        after = ts;
        task = waiting hash slot;
        next = acquire permits (running hash slot ∷ ts) σ;
        at = e;
        runs = acquired c q;
      }
      | inl z ↦
          let k = holder σ.tasks (omega (arith, i.permitted, z)) in
          enabled σ k.before k.after k.task k.at k.holds
    ]
  ]

  first-IsEnabled :
      (σ : HashRequestScheduler Res) (concurrency : ℕ) (t : Task) (ts : List Task)
      → IsScheduler concurrency σ
      → σ.tasks ≡ t ∷ ts
      → IsEnabled σ
  first-IsEnabled σ concurrency (waiting hash slot) ts i e =
      waiting-IsEnabled σ concurrency hash slot ts i e
  first-IsEnabled σ concurrency (joining hash slot callback) ts i e = record {
    before = [];
    after = ts;
    task = joining hash slot callback;
    next = _;
    at = e;
    runs = joined;
  }
  first-IsEnabled σ concurrency (opening hash slot callback) ts i e = record {
    before = [];
    after = ts;
    task = opening hash slot callback;
    next = _;
    at = e;
    runs = opened;
  }
  first-IsEnabled σ concurrency (running hash slot) ts i e =
      enabled σ [] ts (running hash slot) e refl
  first-IsEnabled σ concurrency (refused hash slot) ts i e = record {
    before = [];
    after = ts;
    task = refused hash slot;
    next = _;
    at = e;
    runs = failed not_found;
  }
  first-IsEnabled σ concurrency (finished hash slot permit) ts i e = record {
    before = [];
    after = ts;
    task = finished hash slot permit;
    next = _;
    at = e;
    runs = ended;
  }

  -- In every state that the scheduler gets into, no task is left or some task can run its next
  -- section: tasks that wait for a permit do not block each other.
  pub Reach-progress :
      (concurrency : ℕ) (σ : HashRequestScheduler Res)
      → Reach concurrency σ
      → (σ.tasks ≡ []) ⊎ IsEnabled σ
  Reach-progress concurrency σ r = elim (List-cases σ.tasks) [
    | inl e ↦ inl e
    | inr (t, ts, e) ↦
        inr (first-IsEnabled σ concurrency t ts (Reach-IsScheduler concurrency σ r) e)
  ]
