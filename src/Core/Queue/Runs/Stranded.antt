-- ===== src/Core/Queue/Runs/Stranded.antt =====
-- About a job whose waiting run is discarded while its entry in `queued` stays.
use tidyflow.Domain.Error.{already_running}
use tidyflow.Base.Map.{get, contains_key, get-remove, has_value, get-insert}
use tidyflow.Core.Queue.Worker.{worker_step, handle, wake}
use tidyflow.Core.Queue.Runs.{
  Action, enqueues, cancels, step, run_all, moves, pauses, resumes, stops, works, wakes,
}
use tidyflow.Core.Queue.Tasks.{
  task_step, task_at, replace_task, Move, move_in, report, finish, move_task, advance,
}
use tidyflow.Core.Queue.Calls.{stop_all, cancel_execution, cancel_all, enqueue, pause, resume}
use tidyflow.Core.Queue.State.{
  QueueMessage, QueueState, WorkerAt, Task, run, ExecutionProgress, cancel, unqueue,
  check_cancelled, claim, arm, check_late, spawn, take_token, take_queued, top, wait_paused,
  wait_message, Phase, unlisted, released, working,
}
use tidyflow.Base.{
  ℕ, List, ◌==◌, ◌≡◌, Bool, ◌++◌, ◌||◌, some, any, false, arith, ◌∷◌, not, suc, [], zero, refl,
  true, all, err, Option-cases, inl, inr,
}

abbrev pub about : ℕ → QueueMessage → Bool
about e (run job exec) = exec == e
about e (cancel exec) = exec == e

abbrev pub mentions : ℕ → List QueueMessage → Bool
mentions e = any (about e)

-- The worker is handling a message about the execution.
abbrev pub handles : ℕ → WorkerAt → Bool
handles e top = false
handles e wait_paused = false
handles e wait_message = false
handles e (unqueue job exec) = exec == e
handles e (check_cancelled job exec) = exec == e
handles e (claim job exec) = exec == e
handles e (arm job exec) = exec == e
handles e (check_late job exec) = exec == e
handles e (spawn job exec) = exec == e
handles e (take_token exec) = exec == e
handles e (take_queued exec) = exec == e

abbrev pub runs : ℕ → List Task → Bool
runs e = any (λ t. t.execution_id == e)

-- The execution is entered as queued, and nothing is on the way that could start or remove it.
pub record IsStranded (e j : ℕ) (q : QueueState) : Type 0 where
  pub entered : get e q.queued ≡ some j
  pub unsent : mentions e q.channel ≡ false
  pub not_pending : mentions e q.pending ≡ false
  pub unhandled : handles e q.worker ≡ false
  pub not_running : runs e q.tasks ≡ false
  pub not_active : contains_key e q.active ≡ false

-- Every action but a cancellation of this very execution, or a reuse of its identifier.
abbrev pub spares : ℕ → Action → Bool
spares e (enqueues job exec) = not (exec == e)
spares e (cancels exec) = not (exec == e)
spares e _ = true

mentions-append :
    (e : ℕ) (ms ns : List QueueMessage) → mentions e (ms ++ ns) ≡ (mentions e ms || mentions e ns)
mentions-append e [] ns = refl
mentions-append e (m ∷ ms) ns = ground (arith, mentions-append e ms ns)

handle-IsStranded :
    (e j : ℕ) (w : WorkerAt) (q : QueueState)
    → q.worker ≡ w
    → IsStranded e j q
    → IsStranded e j (handle w q)
unfolding worker_step
handle-IsStranded e j top q at h = ground arith
handle-IsStranded e j wait_paused q at h = ground arith
handle-IsStranded e j wait_message q at h = ground arith
handle-IsStranded e j (unqueue job exec) q at h = ground (arith, get-remove exec e q.queued)
handle-IsStranded e j (check_cancelled job exec) q at h = ground arith
handle-IsStranded e j (claim job exec) q at h = ground arith
handle-IsStranded e j (arm job exec) q at h = ground arith
handle-IsStranded e j (check_late job exec) q at h = ground arith
handle-IsStranded e j (spawn job exec) q at h = ground arith
handle-IsStranded e j (take_token exec) q at h = ground arith
handle-IsStranded e j (take_queued exec) q at h = ground (arith, get-remove exec e q.queued)

cancel_execution-IsStranded :
    (e j k : ℕ) (q : QueueState)
    → (k == e) ≡ false
    → IsStranded e j q
    → IsStranded e j (cancel_execution k q).1
unfolding cancel_execution
cancel_execution-IsStranded e j k q other h =
    ground (arith, mentions-append e q.channel (cancel k ∷ []))

-- An execution that is entered as queued while its message is gone except from `pending`, where it
-- waits for the queue to be resumed.
pub record IsPending (e j : ℕ) (q : QueueState) : Type 0 where
  pub entered : get e q.queued ≡ some j
  pub unsent : mentions e q.channel ≡ false
  pub unhandled : handles e q.worker ≡ false
  pub not_running : runs e q.tasks ≡ false
  pub not_active : contains_key e q.active ≡ false

cancel_execution-IsPending :
    (e j k : ℕ) (q : QueueState)
    → (k == e) ≡ false
    → IsPending e j q
    → IsPending e j (cancel_execution k q).1
unfolding cancel_execution
cancel_execution-IsPending e j k q other h =
    ground (arith, mentions-append e q.channel (cancel k ∷ []))

cancel_all-IsPending :
    (e j : ℕ) (ids : List (ℕ × ExecutionProgress)) (q : QueueState)
    → contains_key e ids ≡ false
    → IsPending e j q
    → IsPending e j (cancel_all ids q)
unfolding stop_all get
cancel_all-IsPending e j [] q none_of h = h
cancel_all-IsPending e j ((k, p) ∷ rest) q none_of h =
    cancel_all-IsPending e j rest (cancel_execution k q).1 (ground arith)
      (cancel_execution-IsPending e j k q (ground arith) h)

task_at-spared :
    (e i : ℕ) (ts : List Task) (t : Task)
    → task_at i ts ≡ some t
    → runs e ts ≡ false
    → (t.execution_id == e) ≡ false
unfolding task_step
task_at-spared e zero [] t at h = cc
task_at-spared e (suc i) [] t at h = cc
task_at-spared e zero (u ∷ ts) t at h = ground arith
task_at-spared e (suc i) (u ∷ ts) t at h = task_at-spared e i ts t at (ground arith)

runs-append : (e : ℕ) (xs ys : List Task) → runs e (xs ++ ys) ≡ (runs e xs || runs e ys)
runs-append e [] ys = refl
runs-append e (x ∷ xs) ys = ground (arith, runs-append e xs ys)

runs-replace_task :
    (e i : ℕ) (ts new : List Task)
    → runs e ts ≡ false
    → runs e new ≡ false
    → runs e (replace_task i new ts) ≡ false
unfolding task_step
runs-replace_task e zero [] new h k = refl
runs-replace_task e (suc i) [] new h k = refl
runs-replace_task e zero (u ∷ ts) new h k = ground (arith, runs-append e new ts)
runs-replace_task e (suc i) (u ∷ ts) new h k = ground (arith, runs-replace_task e i ts new)

move_in-IsStranded :
    (e j i : ℕ) (t : Task) (ph : Phase) (m : Move) (q : QueueState)
    → (t.execution_id == e) ≡ false
    → IsStranded e j q
    → IsStranded e j (move_in i t ph m q)
unfolding task_step
move_in-IsStranded e j i t working (report file name log) q other h =
    let p : ExecutionProgress = record {
      execution_id = t.execution_id;
      job_id = t.job_id;
      job_name = name;
      current_file = file;
      recent_log = log;
    } in
    ground (arith, get-insert t.execution_id e p q.active)
move_in-IsStranded e j i t working (finish o) q other h = ground (
  arith,
  get-remove t.execution_id e q.active,
  runs-replace_task e i q.tasks (record t { phase = unlisted o } ∷ []),
)
move_in-IsStranded e j i t working advance q other h = h
move_in-IsStranded e j i t (unlisted o) advance q other h =
    ground (arith, runs-replace_task e i q.tasks (record t { phase = released o } ∷ []))
move_in-IsStranded e j i t (unlisted o) (report file name log) q other h = h
move_in-IsStranded e j i t (unlisted o) (finish o') q other h = h
move_in-IsStranded e j i t (released o) advance q other h =
    ground (arith, runs-replace_task e i q.tasks [])
move_in-IsStranded e j i t (released o) (report file name log) q other h = h
move_in-IsStranded e j i t (released o) (finish o') q other h = h

stop_all-IsStranded : (e j : ℕ) (q : QueueState) → IsPending e j q → IsStranded e j (stop_all q)
unfolding stop_all
stop_all-IsStranded e j q h =
    let h' : IsPending e j (cancel_all q.active q) =
      cancel_all-IsPending e j q.active q h.not_active h in
    ground arith

step-IsStranded :
    (e j : ℕ) (a : Action) (q : QueueState)
    → spares e a ≡ true
    → IsStranded e j q
    → IsStranded e j (step a q)
unfolding step pause resume wake enqueue
step-IsStranded e j (enqueues job exec) q allowed h =
    ground (arith, get-insert exec e job q.queued, mentions-append e q.channel (run job exec ∷ []))
step-IsStranded e j (cancels exec) q allowed h =
    cancel_execution-IsStranded e j exec q (ground arith) h
step-IsStranded e j pauses q allowed h = ground arith
step-IsStranded e j resumes q allowed h = ground arith
step-IsStranded e j stops q allowed h = stop_all-IsStranded e j q (ground arith)
step-IsStranded e j works q allowed h =
    unfold worker_step in handle-IsStranded e j q.worker q refl h
step-IsStranded e j wakes q allowed h = ground arith
step-IsStranded e j (moves i m) q allowed h = elim (Option-cases (task_at i q.tasks)) [
  | inl nothing ↦ unfold task_step in rw (nothing, move_task) h
  | inr (t, at) ↦
      unfold task_step in
      rw (at, move_task)
        (move_in-IsStranded e j i t t.phase m q (task_at-spared e i q.tasks t at h.not_running) h)
]

run_all-IsStranded :
    (e j : ℕ) (actions : List Action) (q : QueueState)
    → all (spares e) actions ≡ true
    → IsStranded e j q
    → IsStranded e j (run_all actions q)
unfolding run_all
run_all-IsStranded e j [] q s h = h
run_all-IsStranded e j (a ∷ rest) q s h =
    run_all-IsStranded e j rest (step a q) (ground arith) (step-IsStranded e j a q (ground arith) h)

has_value-get : (e j : ℕ) (m : List (ℕ × ℕ)) → get e m ≡ some j → has_value (λ v. v == j) m ≡ true
unfolding get has_value
has_value-get e j [] h = cc
has_value-get e j ((k, v) ∷ m) h = ground (arith, has_value-get e j m)

-- If `stop_all` is called while the run of a job waits in `pending`, the job is locked out: whatever
-- happens afterwards, short of a cancellation of that one execution (or a second use of its
-- identifier), each later call of `enqueue` for the job is refused as already running, and changes
-- nothing.
pub stop_all-locks_out :
    (e j other : ℕ) (q : QueueState) (actions : List Action)
    → IsPending e j q
    → all (spares e) actions ≡ true
    → let later = run_all actions (stop_all q) in
      enqueue j other later ≡ (err already_running, later)
unfolding enqueue
stop_all-locks_out e j other q actions w s =
    let after : IsStranded e j (run_all actions (stop_all q)) =
      run_all-IsStranded e j actions (stop_all q) s (stop_all-IsStranded e j q w) in
    ground (arith, has_value-get e j (run_all actions (stop_all q)).queued after.entered)
