-- ===== src/Core/Watch/Tests.antt =====
-- The watch service on small histories, and the watchers of two jobs and a blueprint.
use tidyflow.Core.Watch.Service.Exclusion.{at_work-once, working_runs}
use tidyflow.Core.Watch.Service.Quiet.{all_before, end_step-quiet, is_beginning, runs_of}
use tidyflow.Core.Watch.Service.{
  WatchAction, WatchState, act, act_all, blueprint_triggered, end_step, ends, folder_created, init,
  is_blueprint_suppressed, loop_step, loops, released, replace_run, run_at, sends, suppression,
}
use tidyflow.Core.Watch.Targets.Registered.{blueprint_handle, job_handle}
use tidyflow.Core.Watch.Targets.Synced.{
  HaveHandles, add_polls, blueprint_target, distinct, job_target, sync_all-HaveHandles,
}
use tidyflow.Core.Watch.Polling.{job}
use tidyflow.Core.Watch.Targets.{PollTask, Watchers, sync_all, sync_each, sync_job, sync_listed}
use tidyflow.Domain.Error.{DomainError}
use tidyflow.Domain.Job.{Job, new_job}
use tidyflow.Domain.Watch.{
  WatchConfig, default_watch, hybrid, poll_interval_secs, uses_polling, uses_realtime,
}
use tidyflow.Base.Map.{delete, get, insert, mem, remove}
use tidyflow.Base.Text.{Text, codes, text_eq}
use tidyflow.Base.{
  false, List, [], ◌∷◌, ◌+◌, Bool, true, none, some, Result, ok, refl, if◌then◌else◌, ◌≡◌, ◌≤◌,
}

-- Two events of blueprint 7 are sent while its run is at work: it is triggered again, and a folder is made.
abbrev twice : List WatchAction
twice =
    sends (blueprint_triggered 7)
    ∷ loops 10 0
    ∷ loops 10 0
    ∷ sends (folder_created 7 (codes "/r/b") (codes "b"))
    ∷ loops 20 0
    ∷ loops 20 0
    ∷ []

at_work-once_example :
    (working_runs 7 (act_all twice init).runs
      ≡ (if mem 7 (act_all twice init).blueprint_busy then 1 else 0))
    × (working_runs 7 (act_all twice init).runs ≤ 1)
at_work-once_example = at_work-once twice 7

-- Two folders are made at once: the second event is dropped, since the first one's run is at work.
two_folders : List WatchAction
two_folders =
    sends (folder_created 7 (codes "/r/a") (codes "a"))
    ∷ sends (folder_created 7 (codes "/r/b") (codes "b"))
    ∷ loops 10 0
    ∷ loops 10 0
    ∷ loops 10 0
    ∷ loops 10 0
    ∷ []

second_dropped : let s = act_all two_folders init in (s.channel ≡ []) × (runs_of 7 s.runs ≡ 1)
unfolding act_all two_folders act init loop_step runs_of is_blueprint_suppressed get mem
second_dropped = (refl, refl)

-- The event that a run's own change causes is received between the two lock sections of its end: a
-- further run starts, although the first one's end is to suppress it.
self_triggered : List WatchAction
self_triggered =
    sends (blueprint_triggered 7)
    ∷ loops 10 0
    ∷ loops 10 0
    ∷ sends (blueprint_triggered 7)
    ∷ ends 20 0
    ∷ loops 20 0
    ∷ loops 20 0
    ∷ ends 20 1
    ∷ []

runs_again :
    let s = act_all self_triggered init in
    (working_runs 7 s.runs ≡ 1) × (get 7 s.blueprint_suppressed_until ≡ some (20 + suppression))
unfolding act_all self_triggered act init loop_step end_step working_runs is_blueprint_suppressed
    get insert remove mem delete run_at replace_run
runs_again = (refl, refl)

abbrev ended : WatchState
ended = record init { runs = record { blueprint_id = 7; phase = released } ∷ [] }

abbrev echoes : List WatchAction
echoes = sends (blueprint_triggered 7) ∷ loops 30 0 ∷ loops 31 0 ∷ []

end_step-quiet_example : runs_of 7 (act_all echoes (end_step 20 0 ended)).runs ≡ 0
unfolding init run_at runs_of is_beginning all_before
end_step-quiet_example = end_step-quiet echoes ended 20 0 7 refl refl refl refl

abbrev is_here : Text → Bool
is_here path = text_eq path (codes "/in")

abbrev watched_config : WatchConfig
watched_config = record default_watch { enabled = true; detection = hybrid 30 }

abbrev jobs : List (Result DomainError Job)
jobs =
    ok (record (new_job 1 (codes "a") (codes "/in") (codes "/out")) { watch = some watched_config })
    ∷ ok (new_job 2 (codes "b") (codes "/in") (codes "/out"))
    ∷ []

-- A poll of the second job runs, which is not watched any more.
abbrev stale : PollTask
stale = record {
  target = job 2;
  source = codes "/in";
  polled = record { interval_secs = 30; auto_correct = false };
}

abbrev polling : Watchers
polling = record { handles = λ t. none; polls = stale ∷ [] }

sync_all-HaveHandles_example :
    let after = (sync_all is_here (λ path rt. none) (ok jobs) (ok []) polling).1 in
    HaveHandles job_target (job_handle is_here (λ path rt. none)) after jobs
    × HaveHandles blueprint_target (blueprint_handle is_here (λ path rt. none)) after []
    × (after.polls
        ≡ add_polls blueprint_target
            (blueprint_handle is_here (λ path rt. none))
            []
            (add_polls job_target (job_handle is_here (λ path rt. none)) jobs (stale ∷ [])))
unfolding distinct sync_all sync_listed sync_each sync_job text_eq new_job default_watch
    uses_realtime uses_polling poll_interval_secs
sync_all-HaveHandles_example =
    sync_all-HaveHandles is_here (λ path rt. none) jobs [] polling refl refl refl

-- It runs on next to the poll of the first.
two_polls :
    (sync_all is_here (λ path rt. none) (ok jobs) (ok []) polling).1.polls
    ≡ record {
      target = job 1;
      source = codes "/in";
      polled = record { interval_secs = 30; auto_correct = false };
    }
      ∷ stale
      ∷ []
unfolding sync_all sync_listed sync_each sync_job text_eq new_job default_watch uses_realtime
    uses_polling poll_interval_secs
two_polls = refl
