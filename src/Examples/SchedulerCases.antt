-- ===== src/Examples/SchedulerCases.antt =====
-- The theorems on the request scheduler, on two requests for one hash.
use fs.Prelude.{ℕ, length, ◌*◌, ◌<◌, ◌≤◌, ◌≡◌, ◌⊎◌, refl, true, false, [], ◌∷◌, max, arith, num_eq}
use fs.Core.Error.{ok}
use fs.Core.Hash.{HashId}
use fs.Client.Scheduler.{
  HashRequestScheduler, opening, waiting, new_scheduler, enqueue, add_callback, complete, remove,
  with_slot, acquire, running, finished, request, advance, opened, acquired, handled, ended, Reach,
  start, step,
}
use fs.Client.Scheduler.Counts.{count, runs, is_running, is_call}
use fs.Client.Scheduler.Reachable.{Reach-executions, Reach-calls}
use fs.Client.Scheduler.Progress.{IsEnabled, Reach-progress}
use fs.Client.Scheduler.Drain.{Runs, resting, going, IsDrained, Runs-drain}
use fs.Examples.Values.{id_of}

abbrev hash : HashId
hash = id_of (1 ∷ [])

abbrev requested : HashRequestScheduler ℕ
requested = enqueue hash 10 (enqueue hash 20 (new_scheduler 1))

requested-Reach : Reach 1 requested
requested-Reach = step (step start (request hash 20)) (request hash 10)

-- One request that runs to its end.
abbrev single : HashRequestScheduler ℕ
single = enqueue hash 20 (new_scheduler 1)

abbrev single_waiting : HashRequestScheduler ℕ
single_waiting = with_slot 0 (add_callback 20) (waiting hash 0 ∷ []) single

abbrev single_running : HashRequestScheduler ℕ
single_running = acquire 0 (running hash 0 ∷ []) single_waiting

abbrev single_finished : HashRequestScheduler ℕ
single_finished = with_slot 0 (complete (ok 7)) (finished hash 0 true ∷ []) single_running

abbrev single_done : HashRequestScheduler ℕ
single_done = remove hash true [] single_finished

single_opening : single.tasks ≡ opening hash 0 20 ∷ []
unfolding enqueue
single_opening = refl

single_permits : single_waiting.permits ≡ 1
unfolding enqueue
single_permits = refl

single_open : single_waiting.closed ≡ false
unfolding enqueue
single_open = refl

single_done-Reach : Reach 1 single_done
single_done-Reach =
    step
      (step
        (step
          (step (step start (request hash 20))
            (advance {before = []} {after = []} single_opening opened))
          (advance {before = []} {after = []} refl (acquired single_open single_permits)))
        (advance {before = []} {after = []} refl (handled (ok 7))))
      (advance {before = []} {after = []} refl ended)

Reach-executions_example :
    (count (runs hash) requested.tasks ≤ 1) × (count is_running requested.tasks ≤ max 1 1)
Reach-executions_example = Reach-executions 1 requested hash requested-Reach

single_done-tasks : single_done.tasks ≡ []
unfolding remove
single_done-tasks = refl

single_done-slots : 0 < single_done.next_slot
unfolding remove enqueue
single_done-slots = omega arith

Reach-calls_example :
    (count (is_call 20) (single_done.slots 0).called
      ≡ count (num_eq 20) (single_done.slots 0).issued)
    × ((single_done.slots 0).callbacks ≡ [])
Reach-calls_example =
    Reach-calls 1 single_done 0 20 single_done-Reach single_done-tasks single_done-slots

Reach-progress_example : (requested.tasks ≡ []) ⊎ IsEnabled requested
Reach-progress_example = Reach-progress 1 requested requested-Reach

-- All sections of the one request.
single-Runs : Runs 4 single single_done
single-Runs = going {before = []} {after = []} single_opening opened (
    going {before = []} {after = []} refl (acquired single_open single_permits) (
      going {before = []} {after = []} refl (handled (ok 7))
        (going {before = []} {after = []} refl ended resting)))

Runs-drain_example :
    (4 ≤ 4 * length single.tasks) × (IsDrained 1 single single_done ⊎ IsEnabled single_done)
Runs-drain_example = Runs-drain 1 4 single single_done (step start (request hash 20)) single-Runs
