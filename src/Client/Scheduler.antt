-- ===== src/Client/Scheduler.antt =====
-- crates/fs0-client/src/storage_session/request_scheduler.rs: requests for the same hash share one
-- execution of the handler. Each call of `enqueue_blocking`, and the task that it spawns, is at a
-- point between two critical sections; a step runs one section. A slot stands for the
-- `Arc<RequestSlot>` of its number, and a callback for its number. Callbacks run when they are taken
-- out of the slot. The semaphore is its number of free permits, and whether it was closed, which no
-- call in the crate does. Each future is awaited to its end and the handler returns: there is no step
-- for a call that is dropped at an `await` or a handler that panics, which leave the slot as it is.
pub mod Counts
pub mod Invariant
pub mod Slots
pub mod Preserved
pub mod Reachable
pub mod Progress
pub mod Drain
use fs.Prelude.{
  ℕ, suc, ◌+◌, ◌≡◌, Bool, true, false, Option, none, some, List, [], ◌∷◌, ◌++◌, map, max, num_eq,
  if◌then◌else◌,
}
use fs.Core.Error.{Fs0Error, Fs0Result, err}
use fs.Core.Hash.{HashId, hash_eq}

-- `RequestSlot`, with the callbacks that were handed to it and the ones that it has called, which
-- the code does not keep.
pub record Call (Res : Type 0) : Type 0 where
  pub callback : ℕ
  pub result : Fs0Result Res

pub record RequestSlot (Res : Type 0) : Type 0 where
  pub result : Option (Fs0Result Res)
  pub callbacks : List ℕ
  pub issued : List ℕ
  pub called : List (Call Res)

-- Where a call is: before `add_callback`, as the owner of a new slot or not; then only as the owner
-- before the permit, at the handler, with a permit that was refused, and after `complete`, with
-- or without a permit.
pub data Task : Type 0 where
  joining opening : HashId → ℕ → ℕ → Task
  waiting running refused : HashId → ℕ → Task
  finished : HashId → ℕ → Bool → Task

pub record HashRequestScheduler (Res : Type 0) : Type 0 where
  pub permits : ℕ
  pub closed : Bool
  pub in_flight : HashId → Option ℕ
  pub slots : ℕ → RequestSlot Res
  pub next_slot : ℕ
  pub tasks : List Task

abbrev pub set_in_flight : HashId → Option ℕ → (HashId → Option ℕ) → HashId → Option ℕ
set_in_flight hash entry in_flight h = if hash_eq h hash then entry else in_flight h

-- The permit that a finished task drops.
abbrev pub returned : Bool → ℕ
returned true = 1
returned false = 0

module _ {Res : Type 0} where
  abbrev pub new_slot : RequestSlot Res
  new_slot = record { result = none; callbacks = []; issued = []; called = [] }

  -- HashRequestScheduler::new
  abbrev pub new_scheduler : ℕ → HashRequestScheduler Res
  new_scheduler concurrency = record {
    permits = max 1 concurrency;
    closed = false;
    in_flight = λ hash. none;
    slots = λ slot. new_slot;
    next_slot = 0;
    tasks = [];
  }

  abbrev pub set_slot :
      ℕ → (RequestSlot Res → RequestSlot Res) → (ℕ → RequestSlot Res) → ℕ → RequestSlot Res
  set_slot slot f slots i = if num_eq i slot then f (slots i) else slots i

  abbrev pub issue : ℕ → RequestSlot Res → RequestSlot Res
  issue callback s = record s { issued = callback ∷ s.issued }

  abbrev pub join_slot : HashId → ℕ → ℕ → HashRequestScheduler Res → HashRequestScheduler Res
  join_slot hash slot callback σ = record σ {
    slots = set_slot slot (issue callback) σ.slots;
    tasks = joining hash slot callback ∷ σ.tasks;
  }

  abbrev pub open_slot : HashId → ℕ → HashRequestScheduler Res → HashRequestScheduler Res
  open_slot hash callback σ = record σ {
    in_flight = set_in_flight hash (some σ.next_slot) σ.in_flight;
    slots = set_slot σ.next_slot (issue callback) σ.slots;
    next_slot = suc σ.next_slot;
    tasks = opening hash σ.next_slot callback ∷ σ.tasks;
  }

  -- The critical section of `in_flight` at the start of `enqueue_blocking`.
  unfoldable pub enqueue : HashId → ℕ → HashRequestScheduler Res → HashRequestScheduler Res
  enqueue hash callback σ = elim (σ.in_flight hash) [
    | some slot ↦ join_slot hash slot callback σ
    | none ↦ open_slot hash callback σ
  ]

  -- RequestSlot::add_callback
  unfoldable pub add_callback : ℕ → RequestSlot Res → RequestSlot Res
  add_callback callback s = elim s.result [
    | some result ↦ record s {
      called = (record { callback = callback; result = result }) ∷ s.called;
    }
    | none ↦ record s { callbacks = s.callbacks ++ (callback ∷ []) }
  ]

  abbrev pub call_with : Fs0Result Res → ℕ → Call Res
  call_with result callback = record { callback = callback; result = result }

  -- RequestSlot::complete
  unfoldable pub complete : Fs0Result Res → RequestSlot Res → RequestSlot Res
  complete result s = record s {
    result = some result;
    callbacks = [];
    called = map (call_with result) s.callbacks ++ s.called;
  }

  abbrev pub with_slot :
      ℕ
      → (RequestSlot Res → RequestSlot Res)
      → List Task
      → HashRequestScheduler Res
      → HashRequestScheduler Res
  with_slot slot f tasks σ = record σ { slots = set_slot slot f σ.slots; tasks = tasks }

  -- `in_flight.remove(&hash_id)` and the end of the task
  unfoldable pub remove :
      HashId → Bool → List Task → HashRequestScheduler Res → HashRequestScheduler Res
  remove hash permit tasks σ = record σ {
    permits = σ.permits + returned permit;
    in_flight = set_in_flight hash none σ.in_flight;
    tasks = tasks;
  }

  abbrev pub with_tasks : List Task → HashRequestScheduler Res → HashRequestScheduler Res
  with_tasks tasks σ = record σ { tasks = tasks }

  abbrev pub acquire : ℕ → List Task → HashRequestScheduler Res → HashRequestScheduler Res
  acquire permits tasks σ = record σ { permits = permits; tasks = tasks }

  -- A step of one of the tasks `before ++ (task ∷ after)`.
  pub data TaskStep (σ : HashRequestScheduler Res) (before after : List Task)
      : Task → HashRequestScheduler Res → Type 0 where
    joined :
        {hash : HashId} {slot callback : ℕ}
        → TaskStep σ before after
            (joining hash slot callback)
            (with_slot slot (add_callback callback) (before ++ after) σ)
    opened :
        {hash : HashId} {slot callback : ℕ}
        → TaskStep σ before after
            (opening hash slot callback)
            (with_slot slot (add_callback callback) (before ++ (waiting hash slot ∷ after)) σ)
    acquired :
        {hash : HashId} {slot permits : ℕ}
        → σ.closed ≡ false
        → σ.permits ≡ suc permits
        → TaskStep σ before after
            (waiting hash slot)
            (acquire permits (before ++ (running hash slot ∷ after)) σ)
    denied :
        {hash : HashId} {slot : ℕ}
        → σ.closed ≡ true
        → TaskStep σ before after
            (waiting hash slot)
            (with_tasks (before ++ (refused hash slot ∷ after)) σ)
    handled :
        {hash : HashId} {slot : ℕ} (result : Fs0Result Res)
        → TaskStep σ before after
            (running hash slot)
            (with_slot slot (complete result) (before ++ (finished hash slot true ∷ after)) σ)
    failed :
        {hash : HashId} {slot : ℕ} (e : Fs0Error)
        → TaskStep σ before after
            (refused hash slot)
            (with_slot slot (complete (err e)) (before ++ (finished hash slot false ∷ after)) σ)
    ended :
        {hash : HashId} {slot : ℕ} {permit : Bool}
        → TaskStep σ before after
            (finished hash slot permit)
            (remove hash permit (before ++ after) σ)

  -- A new request, a step of a task, or the end of the semaphore.
  pub data Step (σ : HashRequestScheduler Res) : HashRequestScheduler Res → Type 0 where
    request : (hash : HashId) (callback : ℕ) → Step σ (enqueue hash callback σ)
    advance :
        {before after : List Task} {task : Task} {τ : HashRequestScheduler Res}
        → σ.tasks ≡ before ++ (task ∷ after)
        → TaskStep σ before after task τ
        → Step σ τ
    closing : Step σ (record σ { closed = true })

  -- The states that a scheduler gets into.
  pub data Reach (concurrency : ℕ) : HashRequestScheduler Res → Type 0 where
    start : Reach concurrency (new_scheduler concurrency)
    step : {σ τ : HashRequestScheduler Res} → Reach concurrency σ → Step σ τ → Reach concurrency τ
