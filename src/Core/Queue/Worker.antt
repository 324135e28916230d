-- ===== src/Core/Queue/Worker.antt =====
-- The worker loop of `JobQueue::start`, one lock section at a time.
use tidyflow.Base.Map.{contains_key, mem, remove, insert, add, delete, get}
use tidyflow.Core.Queue.State.{
  QueueMessage, WorkerAt, QueueState, unqueue, top, run, cancel, wait_paused, check_cancelled,
  take_token, wait_message, spawn, arm, take_queued, claim, cancelled_event, check_late, working,
}
use tidyflow.Base.{ℕ, Bool, Option, List, if◌then◌else◌, ◌∷◌, some, [], true, none, false}

-- A message that came while the queue is paused.
receive_paused : QueueMessage → QueueState → QueueState
receive_paused (run job exec) q = record q { pending = run job exec ∷ q.pending; worker = top }
receive_paused (cancel exec) q = record q { worker = take_token exec }

-- A message that is handled at once.
dispatch : QueueMessage → QueueState → QueueState
dispatch (run job exec) q = record q { worker = unqueue job exec }
dispatch (cancel exec) q = record q { worker = take_token exec }

-- The top of the loop: `paused` is read, then a pending message is preferred.
at_top : Bool → List QueueMessage → QueueState → QueueState
at_top true pending q = record q { worker = wait_paused }
at_top false [] q = record q { worker = wait_message }
at_top false (m ∷ rest) q = dispatch m (record q { pending = rest })

-- `receiver.recv()`: nothing happens while the channel is empty.
receive : (QueueMessage → QueueState → QueueState) → List QueueMessage → QueueState → QueueState
receive handle [] q = q
receive handle (m ∷ rest) q = handle m (record q { channel = rest })

-- An execution cancelled while it was queued is reported and dropped.
drop_cancelled : ℕ → ℕ → QueueState → QueueState
drop_cancelled job exec q =
    if mem exec q.cancelled
    then record q {
      cancelled = delete exec q.cancelled;
      events = cancelled_event job exec ∷ q.events;
      worker = top;
    }
    else record q { worker = claim job exec }

-- A job that runs already is not started again: the message is dropped.
claim_job : ℕ → ℕ → QueueState → QueueState
claim_job job exec q =
    if contains_key job q.running_jobs
    then record q { worker = top }
    else record q { running_jobs = insert job exec q.running_jobs; worker = arm job exec }

signal_late : ℕ → ℕ → QueueState → QueueState
signal_late job exec q =
    if mem exec q.cancelled
    then record q { signalled = add exec q.signalled; worker = spawn job exec }
    else record q { worker = spawn job exec }

-- The two halves of a cancellation: by the token of a run, or else out of the queue.
cancel_by_token : ℕ → QueueState → QueueState
cancel_by_token exec q =
    if mem exec q.cancel_tokens
    then record q {
      cancel_tokens = delete exec q.cancel_tokens;
      signalled = add exec q.signalled;
      worker = top;
    }
    else record q { worker = take_queued exec }

cancel_queued : ℕ → Option ℕ → QueueState → QueueState
cancel_queued exec none q = record q { worker = top }
cancel_queued exec (some job) q = record q {
  queued = remove exec q.queued;
  cancelled = add exec q.cancelled;
  events = cancelled_event job exec ∷ q.events;
  worker = top;
}

pub handle : WorkerAt → QueueState → QueueState
handle top q = at_top q.paused q.pending q
handle wait_paused q = receive receive_paused q.channel q
handle wait_message q = receive dispatch q.channel q
handle (unqueue job exec) q = record q {
  queued = remove exec q.queued;
  worker = check_cancelled job exec;
}
handle (check_cancelled job exec) q = drop_cancelled job exec q
handle (claim job exec) q = claim_job job exec q
handle (arm job exec) q = record q {
  cancel_tokens = add exec q.cancel_tokens;
  worker = check_late job exec;
}
handle (check_late job exec) q = signal_late job exec q
handle (spawn job exec) q = record q {
  tasks = record { job_id = job; execution_id = exec; phase = working } ∷ q.tasks;
  worker = top;
}
handle (take_token exec) q = cancel_by_token exec q
handle (take_queued exec) q = cancel_queued exec (get exec q.queued) q

unfoldable pub worker_step : QueueState → QueueState
unfolding handle at_top receive receive_paused dispatch drop_cancelled claim_job signal_late
    cancel_by_token cancel_queued
worker_step q = handle q.worker q

-- `resume_notify.notified()`: the wait of a paused worker ends.
unfoldable pub wake : QueueState → QueueState
wake q = elim q.worker [ wait_paused ↦ record q { worker = top } | other ↦ q ]
