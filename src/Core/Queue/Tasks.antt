-- ===== src/Core/Queue/Tasks.antt =====
-- The task that the worker spawns for a run: its progress callback, and the lock sections of its end.
use tidyflow.Base.Map.{delete, insert, remove}
use tidyflow.Base.Text.{Text}
use tidyflow.Core.Queue.State.{
  QueueState, Task, Outcome, Phase, ExecutionProgress, reported, completed, progress, failed,
  unlisted, released, working,
}
use tidyflow.Base.{ℕ, Option, List, none, some, ◌∷◌, suc, ◌++◌, [], false, zero}

pub data Move : Type 0 where
  report : (current_file job_name : Text) (recent_log : List Text) → Move
  finish : Outcome → Move
  advance : Move

pub task_at : ℕ → List Task → Option Task
task_at i [] = none
task_at zero (t ∷ ts) = some t
task_at (suc i) (t ∷ ts) = task_at i ts

pub replace_task : ℕ → List Task → List Task → List Task
replace_task i new [] = []
replace_task zero new (t ∷ ts) = new ++ ts
replace_task (suc i) new (t ∷ ts) = t ∷ replace_task i new ts

-- The event at the end; an error also forgets a cancellation.
retire : Task → Outcome → QueueState → QueueState
retire t (reported c) q = record q {
  cancel_tokens = delete t.execution_id q.cancel_tokens;
  events = completed c ∷ q.events;
}
retire t (failed e) q = record q {
  cancel_tokens = delete t.execution_id q.cancel_tokens;
  cancelled = delete t.execution_id q.cancelled;
  events =
      completed (record {
        execution_id = t.execution_id;
        job_id = t.job_id;
        success = false;
        processed = 0;
        failed = 0;
        error_message = some e;
      })
      ∷ q.events;
}

-- One move of task `i`; a move that its phase does not allow does nothing.
pub move_in : ℕ → Task → Phase → Move → QueueState → QueueState
move_in i t working (report file name log) q =
    let p : ExecutionProgress = record {
      execution_id = t.execution_id;
      job_id = t.job_id;
      job_name = name;
      current_file = file;
      recent_log = log;
    } in
    record q { active = insert t.execution_id p q.active; events = progress p ∷ q.events }
move_in i t working (finish o) q = record q {
  active = remove t.execution_id q.active;
  tasks = replace_task i (record t { phase = unlisted o } ∷ []) q.tasks;
}
move_in i t (unlisted o) advance q = record q {
  running_jobs = remove t.job_id q.running_jobs;
  tasks = replace_task i (record t { phase = released o } ∷ []) q.tasks;
}
move_in i t (released o) advance q = record (retire t o q) { tasks = replace_task i [] q.tasks }
move_in i t _ _ q = q

pub move_task : ℕ → Option Task → Move → QueueState → QueueState
move_task i none m q = q
move_task i (some t) m q = move_in i t t.phase m q

unfoldable pub task_step : ℕ → Move → QueueState → QueueState
unfolding task_at replace_task retire move_in move_task
task_step i m q = move_task i (task_at i q.tasks) m q
