-- ===== src/Core/Queue/Runs.antt =====
-- Schedules of the queue: every interleaving of the worker, the calls and the running jobs is a list of
-- actions.
pub mod Exclusion
pub mod Stranded
mod Tests
use tidyflow.Core.Queue.Worker.{worker_step, wake}
use tidyflow.Core.Queue.Calls.{enqueue, cancel_execution, pause, resume, stop_all}
use tidyflow.Core.Queue.State.{QueueState}
use tidyflow.Core.Queue.Tasks.{Move, task_step}
use tidyflow.Base.{ℕ, List, ◌∷◌, []}

pub data Action : Type 0 where
  enqueues : (job exec : ℕ) → Action
  cancels : (exec : ℕ) → Action
  pauses resumes stops works wakes : Action
  moves : (i : ℕ) → Move → Action

unfoldable pub step : Action → QueueState → QueueState
step (enqueues job exec) q = (enqueue job exec q).1
step (cancels exec) q = (cancel_execution exec q).1
step pauses q = pause q
step resumes q = resume q
step stops q = stop_all q
step works q = worker_step q
step wakes q = wake q
step (moves i m) q = task_step i m q

unfoldable pub run_all : List Action → QueueState → QueueState
unfolding step
run_all [] q = q
run_all (a ∷ rest) q = run_all rest (step a q)
