-- ===== src/Core/Watch/Service.antt =====
-- The event loop of WatchService::start with the blueprints that run: each lock section is one step. The
-- run of a blueprint itself is left out. An instant is a number of nanoseconds.
mod Totals
pub mod Exclusion
pub mod Quiet
use tidyflow.Core.Queue.Calls.{enqueue}
use tidyflow.Core.Queue.Runs.{Action}
use tidyflow.Core.Queue.Runs
use tidyflow.Core.Queue.State
use tidyflow.Core.Queue.State.{QueueState}
use tidyflow.Base.Map.{delete, get, insert, mem, remove}
use tidyflow.Base.Text.{Text}
use tidyflow.Base.{
  ℕ, zero, suc, List, [], ◌∷◌, ◌++◌, ◌+◌, ◌*◌, Bool, true, false, if◌then◌else◌, ltb, Option, none,
  some,
}

-- crates/autoflow-domain/src/watch.rs.
pub data NormalizedWatchEvent : Type 0 where
  job_triggered : (job_id : ℕ) → NormalizedWatchEvent
  blueprint_triggered : (blueprint_id : ℕ) → NormalizedWatchEvent
  folder_created : (blueprint_id : ℕ) → (path folder_name : Text) → NormalizedWatchEvent

-- Where the loop stands: before it receives, or between the test for a suppression and the entry in
-- `blueprint_busy`.
pub data LoopAt : Type 0 where
  receives : LoopAt
  begins : (blueprint_id : ℕ) → LoopAt

-- A spawned run: at work, or taken out of `blueprint_busy` and not suppressed yet.
pub data RunPhase : Type 0 where
  working released : RunPhase

pub record BlueprintRun : Type 0 where
  pub blueprint_id : ℕ
  pub phase : RunPhase

pub record WatchState : Type 0 where
  pub channel : List NormalizedWatchEvent
  pub loop : LoopAt
  pub blueprint_busy : List ℕ
  pub blueprint_suppressed_until : List (ℕ × ℕ)
  pub runs : List BlueprintRun
  pub queue : QueueState

unfoldable pub init : WatchState
init = record {
  channel = [];
  loop = receives;
  blueprint_busy = [];
  blueprint_suppressed_until = [];
  runs = [];
  queue = State.init;
}

-- `is_blueprint_suppressed`, with the table that it leaves.
suppressed_by : ℕ → ℕ → List (ℕ × ℕ) → Option ℕ → Bool × List (ℕ × ℕ)
suppressed_by now id table none = (false, table)
suppressed_by now id table (some until) =
    if ltb now until then (true, table) else (false, remove id table)

unfoldable pub is_blueprint_suppressed : ℕ → ℕ → List (ℕ × ℕ) → Bool × List (ℕ × ℕ)
unfolding suppressed_by
is_blueprint_suppressed now id table = suppressed_by now id table (get id table)

-- An event of a blueprint that was received.
receive_blueprint : ℕ → ℕ → WatchState → WatchState
receive_blueprint now id s =
    let (suppressed, table) = is_blueprint_suppressed now id s.blueprint_suppressed_until in
    if suppressed then s else record s { blueprint_suppressed_until = table; loop = begins id }

receive : ℕ → ℕ → NormalizedWatchEvent → WatchState → WatchState
unfolding receive_blueprint
receive now exec (job_triggered job) s = record s { queue = (enqueue job exec s.queue).1 }
receive now exec (blueprint_triggered id) s = receive_blueprint now id s
receive now exec (folder_created id path name) s = receive_blueprint now id s

-- `begin_blueprint_run`, and the run that is spawned if it says so.
begin_run : ℕ → WatchState → WatchState
begin_run id s = if mem id s.blueprint_busy then record s { loop = receives } else record s {
  loop = receives;
  blueprint_busy = id ∷ s.blueprint_busy;
  runs = record { blueprint_id = id; phase = working } ∷ s.runs;
}

loop_from : LoopAt → List NormalizedWatchEvent → ℕ → ℕ → WatchState → WatchState
unfolding receive begin_run
loop_from (begins id) channel now exec s = begin_run id s
loop_from receives [] now exec s = s
loop_from receives (e ∷ rest) now exec s = receive now exec e (record s { channel = rest })

-- One step of the loop, at the instant `now`; `exec` is the identifier that `enqueue` draws.
unfoldable pub loop_step : ℕ → ℕ → WatchState → WatchState
unfolding loop_from
loop_step now exec s = loop_from s.loop s.channel now exec s

unfoldable pub run_at : ℕ → List BlueprintRun → Option BlueprintRun
run_at i [] = none
run_at zero (r ∷ rs) = some r
run_at (suc i) (r ∷ rs) = run_at i rs

-- The runs, with `new` in the place of the one with this number.
unfoldable pub replace_run : ℕ → List BlueprintRun → List BlueprintRun → List BlueprintRun
replace_run i new [] = []
replace_run zero new (r ∷ rs) = new ++ rs
replace_run (suc i) new (r ∷ rs) = r ∷ replace_run i new rs

abbrev pub suppression : ℕ
suppression = 2 * 1000000000

released_of : BlueprintRun → BlueprintRun
released_of r = record { blueprint_id = r.blueprint_id; phase = released }

-- The two lock sections of `end_blueprint_run`, which follows the work.
end_from : ℕ → ℕ → Option BlueprintRun → WatchState → WatchState
unfolding released_of
end_from now i none s = s
end_from now i (some r) s = elim r.phase [
  | working ↦ record s {
    blueprint_busy = delete r.blueprint_id s.blueprint_busy;
    runs = replace_run i (released_of r ∷ []) s.runs;
  }
  | released ↦ record s {
    blueprint_suppressed_until =
        insert r.blueprint_id (now + suppression) s.blueprint_suppressed_until;
    runs = replace_run i [] s.runs;
  }
]

unfoldable pub end_step : ℕ → ℕ → WatchState → WatchState
unfolding end_from
end_step now i s = end_from now i (run_at i s.runs) s

-- What happens: a watcher sends an event, the loop or the end of a run goes on, or the queue does.
pub data WatchAction : Type 0 where
  sends : NormalizedWatchEvent → WatchAction
  loops : (now exec : ℕ) → WatchAction
  ends : (now i : ℕ) → WatchAction
  queues : Action → WatchAction

unfoldable pub act : WatchAction → WatchState → WatchState
unfolding loop_step end_step
act (sends e) s = record s { channel = s.channel ++ e ∷ [] }
act (loops now exec) s = loop_step now exec s
act (ends now i) s = end_step now i s
act (queues a) s = record s { queue = Runs.step a s.queue }

unfoldable pub act_all : List WatchAction → WatchState → WatchState
act_all [] s = s
act_all (a ∷ rest) s = act_all rest (act a s)
