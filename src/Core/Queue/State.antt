-- ===== src/Core/Queue/State.antt =====
-- The state of the job queue (JobQueue, QueueMessage, and what its threads hold), and its events:
-- crates/autoflow-domain/src/execution.rs. The rates of a progress report are left out: floats.
use tidyflow.Base.Text.{Text, msg}
use tidyflow.Base.{ℕ, Bool, List, false, [], Option, some}

pub record ExecutionProgress : Type 0 where
  pub execution_id : ℕ
  pub job_id : ℕ
  pub job_name : Text
  pub current_file : Text
  pub recent_log : List Text

pub record ExecutionCompleted : Type 0 where
  pub execution_id : ℕ
  pub job_id : ℕ
  pub success : Bool
  pub processed : ℕ
  pub failed : ℕ
  pub error_message : Option Text

pub data ExecutionEvent : Type 0 where
  progress : ExecutionProgress → ExecutionEvent
  completed : ExecutionCompleted → ExecutionEvent

pub data QueueMessage : Type 0 where
  run : (job_id execution_id : ℕ) → QueueMessage
  cancel : (execution_id : ℕ) → QueueMessage

-- Where the worker stands: before the test of `paused`, in one of the two waits for a message, or
-- before a lock section of the handling of a message.
pub data WorkerAt : Type 0 where
  top wait_paused wait_message : WorkerAt
  unqueue check_cancelled claim arm check_late spawn : (job_id execution_id : ℕ) → WorkerAt
  take_token take_queued : (execution_id : ℕ) → WorkerAt

-- How `run_job` ended: it called `on_completed` and returned `Ok`, or it returned an error.
pub data Outcome : Type 0 where
  reported : ExecutionCompleted → Outcome
  failed : Text → Outcome

-- A spawned run: at work, then through the lock sections of its end.
pub data Phase : Type 0 where
  working : Phase
  unlisted released : Outcome → Phase

pub record Task : Type 0 where
  pub job_id : ℕ
  pub execution_id : ℕ
  pub phase : Phase

pub record QueueState : Type 0 where
  pub channel : List QueueMessage
  pub active : List (ℕ × ExecutionProgress)
  pub running_jobs : List (ℕ × ℕ)
  pub queued : List (ℕ × ℕ)
  pub cancelled : List ℕ
  pub paused : Bool
  -- The last message pushed is the head.
  pub pending : List QueueMessage
  pub cancel_tokens : List ℕ
  -- The executions whose token was cancelled.
  pub signalled : List ℕ
  pub worker : WorkerAt
  pub tasks : List Task
  -- The newest event is the head.
  pub events : List ExecutionEvent

unfoldable pub init : QueueState
init = record {
  channel = [];
  active = [];
  running_jobs = [];
  queued = [];
  cancelled = [];
  paused = false;
  pending = [];
  cancel_tokens = [];
  signalled = [];
  worker = top;
  tasks = [];
  events = [];
}

-- The event of an execution that was cancelled before it ran.
unfoldable pub cancelled_event : ℕ → ℕ → ExecutionEvent
cancelled_event job_id execution_id = completed (record {
  execution_id = execution_id;
  job_id = job_id;
  success = false;
  processed = 0;
  failed = 0;
  error_message = some (msg "cancelled");
})
