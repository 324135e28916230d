-- ===== src/Core/Watch/Targets.antt =====
-- The handles that WatchService registers and the poll tasks it starts, by `sync_all`, `sync_job` and
-- `sync_blueprint`. Whether a path exists and whether `notify` watches one are parameters; a handle says
-- what its watchers were made with.
pub mod Registered
pub mod Synced
use tidyflow.Core.Watch.Polling.{WatchTarget, blueprint, job}
use tidyflow.Domain.Blueprint.{Blueprint}
use tidyflow.Domain.Error.{DomainError, source_not_found}
use tidyflow.Domain.Job.{Job}
use tidyflow.Domain.Watch.{
  WatchConfig, WatchEventKind, poll_interval_secs, uses_polling, uses_realtime,
}
use tidyflow.Base.Text.{Text}
use tidyflow.Base.{
  ℕ, List, [], ◌∷◌, ◌++◌, Bool, true, false, not, ◌&&◌, ◌==◌, if◌then◌else◌, is_some_and, Option,
  none, some, Result, ok, err, ◌>>=◌, ◌>>◌,
}

-- What a debouncer, or a poll, was started with.
pub record Realtime : Type 0 where
  pub allowed : List WatchEventKind
  pub settle : ℕ
  pub recursive : Bool
  pub auto_correct : Bool

pub record Polled : Type 0 where
  pub interval_secs : ℕ
  pub auto_correct : Bool

pub record WatchHandle : Type 0 where
  pub source : Text
  pub debouncer : Option Realtime
  pub poll_task : Option Polled

-- A poll task: nothing ends its loop, and a task is not ended by the drop of its `JoinHandle`.
pub record PollTask : Type 0 where
  pub target : WatchTarget
  pub source : Text
  pub polled : Polled

-- The registered handles, and the poll tasks that run. A debouncer ends with its handle.
pub record Watchers : Type 0 where
  pub handles : WatchTarget → Option WatchHandle
  pub polls : List PollTask

-- An error that is returned, or an `expect` that fails.
pub data SyncError : Type 0 where
  fails : DomainError → SyncError
  panics : SyncError

unfoldable pub same_target : WatchTarget → WatchTarget → Bool
same_target (job i) (job j) = i == j
same_target (blueprint i) (blueprint j) = i == j
same_target (job i) (blueprint j) = false
same_target (blueprint i) (job j) = false

-- The `insert` and `remove` of the handles.
unfoldable pub set_handle : WatchTarget → Option WatchHandle → Watchers → Watchers
unfolding same_target
set_handle target handle state = record state {
  handles = λ t. if same_target target t then handle else state.handles t;
}

unfoldable pub unregister : WatchTarget → Watchers → Watchers
unfolding set_handle
unregister target state = set_handle target none state

unfoldable pub tasks_of : WatchTarget → WatchHandle → List PollTask
tasks_of target handle = elim handle.poll_task [
  | none ↦ []
  | some p ↦ record { target = target; source = handle.source; polled = p } ∷ []
]

-- A handle is registered, and its poll spawned.
unfoldable pub insert_handle : WatchTarget → WatchHandle → Watchers → Watchers
unfolding set_handle tasks_of
insert_handle target handle state =
    set_handle target (some handle) (record state { polls = tasks_of target handle ++ state.polls })

abbrev pub expect {ℓ} : {A : Type ℓ} → Option A → Result SyncError A
expect none = err panics
expect (some a) = ok a

-- The result, with what a failed call leaves.
unfoldable pub kept : Watchers → Result SyncError Watchers → Result SyncError (Unit {0}) × Watchers
kept before (ok state) = (ok tt, state)
kept before (err e) = (err e, before)

-- What `sync_job` and `sync_blueprint` share.
unfoldable pub sync_target :
    WatchTarget
    → Bool
    → Option WatchConfig
    → (WatchConfig → Watchers → Result SyncError Watchers)
    → Watchers
    → Result SyncError (Unit {0}) × Watchers
unfolding unregister kept
sync_target target should_watch watch register state =
    let cleared = unregister target state in
    if not should_watch
    then (ok tt, cleared)
    else kept cleared (expect watch >>= λ config. register config cleared)

-- The loops of `sync_all` over what the stores give, up to the first error.
unfoldable pub sync_each {ℓ} :
    {A : Type ℓ}
    → (A → Watchers → Result SyncError (Unit {0}) × Watchers)
    → List (Result DomainError A)
    → Watchers
    → Result SyncError (Unit {0}) × Watchers
sync_each sync [] state = (ok tt, state)
sync_each sync (err e ∷ rest) state = (err (fails e), state)
sync_each sync (ok a ∷ rest) state =
    let (result, after) = sync a state in
    elim result [ ok _ ↦ sync_each sync rest after | err e ↦ (err e, after) ]

unfoldable pub sync_listed {ℓ} :
    {A : Type ℓ}
    → (A → Watchers → Result SyncError (Unit {0}) × Watchers)
    → Result DomainError (List (Result DomainError A))
    → Watchers
    → Result SyncError (Unit {0}) × Watchers
unfolding sync_each
sync_listed sync (err e) state = (err (fails e), state)
sync_listed sync (ok listed) state = sync_each sync listed state

module _ (path_exists : Text → Bool) (start_debouncer : Text → Realtime → Option DomainError) where
  unfoldable pub should_watch_job : Job → Bool
  should_watch_job j =
      j.enabled && is_some_and (λ w. w.enabled) j.watch && path_exists j.source_path

  unfoldable pub should_watch_blueprint : Blueprint → Bool
  should_watch_blueprint b =
      b.enabled && is_some_and (λ w. w.enabled) b.watch && path_exists b.root_path

  -- `start_realtime_job` and `start_realtime_blueprint`: what is watched, or why it is not.
  start_realtime : Text → Realtime → Result SyncError (Option Realtime)
  start_realtime source realtime = elim (start_debouncer source realtime) [
    | none ↦ ok (some realtime)
    | some e ↦ err (fails e)
  ]

  debouncer_of : WatchConfig → Text → Realtime → Result SyncError (Option Realtime)
  unfolding start_realtime
  debouncer_of watch source realtime =
      if uses_realtime watch then start_realtime source realtime else ok none

  poll_of : WatchConfig → (auto_correct : Bool) → Result SyncError (Option Polled)
  poll_of watch auto_correct =
      if uses_polling watch
      then (expect (poll_interval_secs watch) >>= λ secs.
          ok (some (record { interval_secs = secs; auto_correct = auto_correct })))
      else ok none

  start_watchers :
      WatchTarget
      → WatchConfig
      → Text
      → Realtime
      → (poll_corrects : Bool) → Watchers
      → Result SyncError Watchers
  unfolding debouncer_of poll_of insert_handle
  start_watchers target watch source realtime poll_corrects state =
      debouncer_of watch source realtime >>= λ debouncer.
      poll_of watch poll_corrects >>= λ poll_task. ok (
        insert_handle target
          (record { source = source; debouncer = debouncer; poll_task = poll_task }) state)

  -- `register_job` and `register_blueprint`, which differ in what they pass on.
  register :
      WatchTarget
      → WatchConfig
      → Text
      → Realtime
      → (poll_corrects : Bool) → Watchers
      → Result SyncError Watchers
  unfolding start_watchers
  register target watch source realtime poll_corrects state =
      if not (path_exists source)
      then err (fails (source_not_found source))
      else start_watchers target watch source realtime poll_corrects state

  unfoldable pub register_job :
      WatchTarget → WatchConfig → Text → (recursive : Bool) → Watchers → Result SyncError Watchers
  unfolding register
  register_job target watch root_path recursive state =
      register target watch root_path
        (record {
          allowed = watch.events;
          settle = watch.settle_seconds;
          recursive = recursive;
          auto_correct = false;
        })
        false state

  unfoldable pub register_blueprint :
      WatchTarget → WatchConfig → Blueprint → Watchers → Result SyncError Watchers
  unfolding register
  register_blueprint target watch b state =
      register target watch b.root_path
        (record {
          allowed = watch.events;
          settle = watch.settle_seconds;
          recursive = b.recursive;
          auto_correct = watch.auto_correct;
        })
        watch.auto_correct state

  unfoldable pub sync_job : Job → Watchers → Result SyncError (Unit {0}) × Watchers
  unfolding should_watch_job register_job sync_target
  sync_job j state =
      sync_target (job j.id) (should_watch_job j) j.watch
        (λ watch. register_job (job j.id) watch j.source_path j.filters.recursive) state

  unfoldable pub sync_blueprint : Blueprint → Watchers → Result SyncError (Unit {0}) × Watchers
  unfolding should_watch_blueprint register_blueprint sync_target
  sync_blueprint b state =
      sync_target (blueprint b.id) (should_watch_blueprint b) b.watch
        (λ watch. register_blueprint (blueprint b.id) watch b) state

  unfoldable pub sync_all :
      (jobs : Result DomainError (List (Result DomainError Job)))
      → (blueprints : Result DomainError (List (Result DomainError Blueprint))) → Watchers
      → Result SyncError (Unit {0}) × Watchers
  unfolding sync_job sync_blueprint sync_listed
  sync_all jobs blueprints state =
      let (result, after) = sync_listed sync_job jobs state in
      elim result [ ok _ ↦ sync_listed sync_blueprint blueprints after | err e ↦ (err e, after) ]
