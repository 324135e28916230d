-- ===== src/Core/Queue/Calls.antt =====
-- The calls on a queue: enqueue, cancel, pause, resume and stop_all. A message can be sent as long as
-- the worker lives, which it does while the queue exists.
use tidyflow.Base.Map.{contains_key, has_value, insert}
use tidyflow.Domain.Error.{DomainError, execution_not_found, already_running}
use tidyflow.Core.Queue.State.{QueueState, ExecutionProgress, cancel, run}
use tidyflow.Base.{
  ℕ, List, false, [], Bool, true, Result, if◌then◌else◌, not, ◌&&◌, ◌||◌, err, ◌==◌, ok, ◌++◌, ◌∷◌,
}

-- `exec` is the new identifier.
unfoldable pub enqueue : ℕ → ℕ → QueueState → Result DomainError ℕ × QueueState
enqueue job exec q =
    if contains_key job q.running_jobs || has_value (λ j. j == job) q.queued
    then (err already_running, q)
    else (
      ok exec,
      record q { queued = insert exec job q.queued; channel = q.channel ++ run job exec ∷ [] },
    )

unfoldable pub cancel_execution : ℕ → QueueState → Result DomainError (Unit {0}) × QueueState
cancel_execution exec q =
    if not (contains_key exec q.active) && not (contains_key exec q.queued)
    then (err execution_not_found, q)
    else (ok tt, record q { channel = q.channel ++ cancel exec ∷ [] })

unfoldable pub pause : QueueState → QueueState
pause q = record q { paused = true }

unfoldable pub resume : QueueState → QueueState
resume q = record q { paused = false }

unfoldable pub is_paused : QueueState → Bool
is_paused q = q.paused

-- `for execution_id in execution_ids { let _ = self.cancel(execution_id); }`.
pub cancel_all : List (ℕ × ExecutionProgress) → QueueState → QueueState
cancel_all [] q = q
cancel_all ((exec, p) ∷ rest) q = cancel_all rest (cancel_execution exec q).1

unfoldable pub stop_all : QueueState → QueueState
unfolding cancel_all
stop_all q = record (cancel_all q.active q) { pending = [] }

values : List (ℕ × ExecutionProgress) → List ExecutionProgress
values [] = []
values ((k, p) ∷ m) = p ∷ values m

unfoldable pub list_active : QueueState → List ExecutionProgress
unfolding values
list_active q = values q.active
