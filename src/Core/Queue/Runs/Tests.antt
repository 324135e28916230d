-- ===== src/Core/Queue/Runs/Tests.antt =====
-- The queue's theorems at short schedules.
use tidyflow.Domain.Error.{already_running}
use tidyflow.Core.Queue.Runs.Stranded.{IsPending, stop_all-locks_out}
use tidyflow.Core.Queue.Worker.{worker_step}
use tidyflow.Base.Map.{get, has_value, insert, remove, mem, contains_key, add}
use tidyflow.Core.Queue.State.{init, QueueState, run, wait_paused}
use tidyflow.Core.Queue.Runs.Exclusion.{live, held, run_all-exclusive}
use tidyflow.Core.Queue.Runs.{run_all, resumes, Action, enqueues, wakes, works, pauses}
use tidyflow.Core.Queue.Calls.{enqueue, stop_all, pause}
use tidyflow.Base.{List, true, ◌+◌, ◌∷◌, ◌≡◌, [], refl, if◌then◌else◌, err}

-- Job 7 is enqueued, taken by the worker up to the spawn of its run, and enqueued again in vain.
abbrev one_run : List Action
one_run =
    enqueues 7 100
    ∷ works
    ∷ works
    ∷ works
    ∷ works
    ∷ works
    ∷ works
    ∷ works
    ∷ works
    ∷ enqueues 7 101
    ∷ []

one_run-live : live 7 (run_all one_run init).tasks ≡ 1
unfolding run_all init enqueue worker_step get has_value insert remove mem add
one_run-live = refl

run_all-exclusive_example :
    live 7 (run_all one_run init).tasks + held 7 (run_all one_run init).worker
    ≡ (if contains_key 7 (run_all one_run init).running_jobs then 1 else 0)
run_all-exclusive_example = run_all-exclusive 7 one_run

-- The queue is paused, and the run of job 7 waits in `pending`.
abbrev waiting : QueueState
waiting = record init {
  paused = true;
  queued = (100, 7) ∷ [];
  pending = run 7 100 ∷ [];
  worker = wait_paused;
}

waiting_reached : run_all (pauses ∷ works ∷ enqueues 7 100 ∷ works ∷ works ∷ []) init ≡ waiting
unfolding run_all init enqueue worker_step get has_value insert remove pause
waiting_reached = refl

waiting-IsPending : IsPending 100 7 waiting
unfolding init get
waiting-IsPending = record {
  entered = refl;
  unsent = refl;
  unhandled = refl;
  not_running = refl;
  not_active = refl;
}

stop_all-locks_out_example :
    enqueue 7 101 (run_all (resumes ∷ wakes ∷ works ∷ []) (stop_all waiting))
    ≡ (err already_running, run_all (resumes ∷ wakes ∷ works ∷ []) (stop_all waiting))
stop_all-locks_out_example =
    stop_all-locks_out 100 7 101 waiting (resumes ∷ wakes ∷ works ∷ []) waiting-IsPending refl
