-- ===== src/Core/Queue/Runs/Exclusion.antt =====
-- About the number of runs of a job that are in progress, in every interleaving.
use tidyflow.Core.Queue.Runs.{
  Action, step, run_all, enqueues, cancels, moves, pauses, resumes, stops, works, wakes,
}
use tidyflow.Core.Queue.Calls.{stop_all, cancel_execution, cancel_all, enqueue, pause, resume}
use tidyflow.Core.Queue.Tasks.{
  task_step, task_at, Move, replace_task, move_in, report, finish, advance, move_task,
}
use tidyflow.Base.Map.{contains_key, get-insert, get-remove, get}
use tidyflow.Core.Queue.Worker.{worker_step, handle, wake}
use tidyflow.Core.Queue.State.{
  QueueState, Phase, WorkerAt, arm, Task, unlisted, check_late, released, spawn, working, unqueue,
  ExecutionProgress, check_cancelled, claim, take_token, take_queued, top, wait_paused,
  wait_message, init,
}
use tidyflow.Base.{
  ℕ, List, ◌≡◌, ◌+◌, if◌then◌else◌, ◌==◌, ◌∷◌, [], arith, some, suc, refl, zero, ◌++◌, Option-cases,
  inl, inr,
}

-- A spawned run counts until its job is taken out of `running_jobs`.
abbrev pub counts : ℕ → ℕ → Phase → ℕ
counts j job working = if job == j then 1 else 0
counts j job (unlisted o) = if job == j then 1 else 0
counts j job (released o) = 0

abbrev pub live : ℕ → List Task → ℕ
live j [] = 0
live j (t ∷ ts) = counts j t.job_id t.phase + live j ts

-- The worker has claimed the job and is about to spawn its run.
abbrev pub held : ℕ → WorkerAt → ℕ
held j (arm job exec) = if job == j then 1 else 0
held j (check_late job exec) = if job == j then 1 else 0
held j (spawn job exec) = if job == j then 1 else 0
held j _ = 0

abbrev pub IsExactAt : ℕ → QueueState → Type 0
IsExactAt j q = live j q.tasks + held j q.worker ≡ (if contains_key j q.running_jobs then 1 else 0)

handle-IsExactAt :
    (j : ℕ) (w : WorkerAt) (q : QueueState)
    → q.worker ≡ w
    → IsExactAt j q
    → IsExactAt j (handle w q)
unfolding worker_step
handle-IsExactAt j top q e h = ground arith
handle-IsExactAt j wait_paused q e h = ground arith
handle-IsExactAt j wait_message q e h = ground arith
handle-IsExactAt j (unqueue job exec) q e h = ground arith
handle-IsExactAt j (check_cancelled job exec) q e h = ground arith
handle-IsExactAt j (claim job exec) q e h = ground (arith, get-insert job j exec q.running_jobs)
handle-IsExactAt j (arm job exec) q e h = ground arith
handle-IsExactAt j (check_late job exec) q e h = ground arith
handle-IsExactAt j (spawn job exec) q e h = ground arith
handle-IsExactAt j (take_token exec) q e h = ground arith
handle-IsExactAt j (take_queued exec) q e h = ground arith

cancel_all-frame :
    (ids : List (ℕ × ExecutionProgress)) (q : QueueState)
    → ((cancel_all ids q).tasks ≡ q.tasks)
      × ((cancel_all ids q).worker ≡ q.worker)
      × ((cancel_all ids q).running_jobs ≡ q.running_jobs)
unfolding stop_all cancel_execution
cancel_all-frame [] q = (refl, refl, refl)
cancel_all-frame ((exec, p) ∷ rest) q =
    let (a, b, c) = cancel_all-frame rest (cancel_execution exec q).1 in
    (ground (arith, a), ground (arith, b), ground (arith, c))

live-append : (j : ℕ) (xs ys : List Task) → live j (xs ++ ys) ≡ live j xs + live j ys
live-append j [] ys = omega arith
live-append j (x ∷ xs) ys = omega (arith, live-append j xs ys)

-- Putting a task in the place of another, or taking it away, changes the count by the difference.
live-replace_task :
    (j i : ℕ) (ts : List Task) (t : Task) (new : List Task)
    → task_at i ts ≡ some t
    → live j (replace_task i new ts) + counts j t.job_id t.phase ≡ live j ts + live j new
unfolding task_step
live-replace_task j zero [] t new e = cc
live-replace_task j (suc i) [] t new e = cc
live-replace_task j zero (u ∷ ts) t new e = ground (arith, live-append j new ts)
live-replace_task j (suc i) (u ∷ ts) t new e = ground (arith, live-replace_task j i ts t new)

move_in-IsExactAt :
    (j i : ℕ) (t : Task) (ph : Phase) (m : Move) (q : QueueState)
    → task_at i q.tasks ≡ some t
    → t.phase ≡ ph
    → IsExactAt j q
    → IsExactAt j (move_in i t ph m q)
unfolding task_step
move_in-IsExactAt j i t working (report file name log) q at e h = h
move_in-IsExactAt j i t working (finish o) q at e h =
    let t' : Task = record t { phase = unlisted o } in
    ground (arith, live-replace_task j i q.tasks t (t' ∷ []) at)
move_in-IsExactAt j i t working advance q at e h = h
move_in-IsExactAt j i t (unlisted o) advance q at e h =
    let t' : Task = record t { phase = released o } in
    ground
      (arith, live-replace_task j i q.tasks t (t' ∷ []) at, get-remove t.job_id j q.running_jobs)
move_in-IsExactAt j i t (unlisted o) (report file name log) q at e h = h
move_in-IsExactAt j i t (unlisted o) (finish o') q at e h = h
move_in-IsExactAt j i t (released o) advance q at e h =
    ground (arith, live-replace_task j i q.tasks t [] at)
move_in-IsExactAt j i t (released o) (report file name log) q at e h = h
move_in-IsExactAt j i t (released o) (finish o') q at e h = h

step-IsExactAt : (j : ℕ) (a : Action) (q : QueueState) → IsExactAt j q → IsExactAt j (step a q)
unfolding step enqueue cancel_execution pause resume stop_all wake
step-IsExactAt j (enqueues job exec) q h = ground arith
step-IsExactAt j (cancels exec) q h = ground arith
step-IsExactAt j pauses q h = h
step-IsExactAt j resumes q h = h
step-IsExactAt j stops q h = ground (arith, cancel_all-frame q.active q)
step-IsExactAt j works q h = unfold worker_step in handle-IsExactAt j q.worker q refl h
step-IsExactAt j wakes q h = ground arith
step-IsExactAt j (moves i m) q h = elim (Option-cases (task_at i q.tasks)) [
  | inl nothing ↦ unfold task_step in rw (nothing, move_task) h
  | inr (t, at) ↦
      unfold task_step in rw (at, move_task) (move_in-IsExactAt j i t t.phase m q at refl h)
]

run_all-IsExactAt :
    (j : ℕ) (actions : List Action) (q : QueueState)
    → IsExactAt j q
    → IsExactAt j (run_all actions q)
unfolding run_all
run_all-IsExactAt j [] q h = h
run_all-IsExactAt j (a ∷ rest) q h = run_all-IsExactAt j rest (step a q) (step-IsExactAt j a q h)

-- In every interleaving of the worker, the calls and the running jobs, the runs of a job that are in
-- progress, with the one that the worker is about to spawn, are one if `running_jobs` has the job,
-- and none otherwise: a job never runs twice at a time.
pub run_all-exclusive :
    (j : ℕ) (actions : List Action)
    → live j (run_all actions init).tasks + held j (run_all actions init).worker
      ≡ (if contains_key j (run_all actions init).running_jobs then 1 else 0)
run_all-exclusive j actions = run_all-IsExactAt j actions init (unfold init in (unfold get in refl))
