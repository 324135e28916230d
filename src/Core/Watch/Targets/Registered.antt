-- ===== src/Core/Watch/Targets/Registered.antt =====
-- What is registered after `sync_all`, and which polls it starts.
use tidyflow.Core.Watch.Polling.{WatchTarget, blueprint, job}
use tidyflow.Core.Watch.Targets.{
  PollTask, Watchers, insert_handle, tasks_of, Polled, Realtime, SyncError, WatchHandle,
  debouncer_of, kept, poll_of, register, register_blueprint, register_job, same_target, set_handle,
  start_watchers, should_watch_blueprint, should_watch_job, start_realtime, sync_blueprint,
  sync_job, sync_target, unregister,
}
use tidyflow.Domain.Blueprint.{Blueprint}
use tidyflow.Domain.Error.{DomainError}
use tidyflow.Domain.Job.{Job}
use tidyflow.Domain.Watch.{WatchConfig, poll_interval_secs, uses_polling, uses_realtime}
use tidyflow.Base.Text.{Text}
use tidyflow.Base.{
  List, [], ◌++◌, Bool, Bool-cases, inl, inr, true, false, if◌then◌else◌, Option, Option-cases,
  none, some, Result, Result-cases, ok, bind-passed, ◌≡◌, ap, arith, refl,
}

-- A handle with a debouncer exactly for a mode that uses one, and a poll at the mode's interval.
unfoldable pub handle_of :
    WatchConfig → (source : Text) → Realtime → (poll_corrects : Bool) → WatchHandle
handle_of watch source rt poll_corrects = record {
  source = source;
  debouncer = if uses_realtime watch then some rt else none;
  poll_task = elim (poll_interval_secs watch) [
    | none ↦ none
    | some secs ↦ some (record { interval_secs = secs; auto_correct = poll_corrects })
  ];
}

unfoldable pub job_realtime : WatchConfig → Job → Realtime
job_realtime watch j = record {
  allowed = watch.events;
  settle = watch.settle_seconds;
  recursive = j.filters.recursive;
  auto_correct = false;
}

unfoldable pub blueprint_realtime : WatchConfig → Blueprint → Realtime
blueprint_realtime watch b = record {
  allowed = watch.events;
  settle = watch.settle_seconds;
  recursive = b.recursive;
  auto_correct = watch.auto_correct;
}

wanted : Bool → Option WatchConfig → (WatchConfig → WatchHandle) → Option WatchHandle
wanted false watch handle = none
wanted true none handle = none
wanted true (some config) handle = some (handle config)

unfoldable pub started_polls : WatchTarget → Option WatchHandle → List PollTask
unfolding tasks_of
started_polls target none = []
started_polls target (some handle) = tasks_of target handle

sync_target-eq :
    (target : WatchTarget) (should_watch : Bool) (watch : Option WatchConfig)
    (starts : WatchConfig → Watchers → Result SyncError Watchers)
    (handle : WatchConfig → WatchHandle) (state : Watchers) (t : WatchTarget)
    → ((w : WatchConfig) (before after : Watchers)
        → starts w before ≡ ok after
        → after ≡ insert_handle target (handle w) before)
    → (sync_target target should_watch watch starts state).0 ≡ ok tt
    → let after = (sync_target target should_watch watch starts state).1 in
      (after.handles t
        ≡ (if same_target target t then wanted should_watch watch handle else state.handles t))
      × (after.polls ≡ started_polls target (wanted should_watch watch handle) ++ state.polls)
unfolding sync_target wanted unregister set_handle kept started_polls insert_handle
sync_target-eq target false watch starts handle state t law h = (refl, refl)
sync_target-eq target true none starts handle state t law h = absurd (ground (arith, h))
sync_target-eq target true (some w) starts handle state t law h =
    let cleared = unregister target state in
    elim (Result-cases (starts w cleared)) [
      | inl (after, e) ↦
          let set = law w cleared after e in
          let here = ap (λ m. m.handles t) set in
          let polls = ap (λ m. m.polls) set in (ground (arith, e, here), ground (arith, e, polls))
      | inr (x, e) ↦ absurd (ground (arith, e, h))
    ]

module _ (path_exists : Text → Bool) (start_debouncer : Text → Realtime → Option DomainError) where
  -- The handle that a job, or a blueprint, is meant to have.
  unfoldable pub job_handle : Job → Option WatchHandle
  unfolding handle_of job_realtime wanted
  job_handle j =
      wanted (should_watch_job path_exists start_debouncer j) j.watch
        (λ watch. handle_of watch j.source_path (job_realtime watch j) false)

  unfoldable pub blueprint_handle : Blueprint → Option WatchHandle
  unfolding handle_of blueprint_realtime wanted
  blueprint_handle b =
      wanted (should_watch_blueprint path_exists start_debouncer b) b.watch
        (λ watch. handle_of watch b.root_path (blueprint_realtime watch b) watch.auto_correct)

  debouncer_of-eq :
      (watch : WatchConfig) (source : Text) (rt : Realtime) {d : Option Realtime}
      → debouncer_of path_exists start_debouncer watch source rt ≡ ok d
      → d ≡ (if uses_realtime watch then some rt else none)
  unfolding debouncer_of start_realtime
  debouncer_of-eq watch source rt h = elim (Option-cases (start_debouncer source rt)) [
    | inl e ↦ ground (arith, e, h)
    | inr (x, e) ↦ ground (arith, e, h)
  ]

  poll_of-eq :
      (watch : WatchConfig) (corrects : Bool) {p : Option Polled}
      → poll_of path_exists start_debouncer watch corrects ≡ ok p
      → p ≡ (elim (poll_interval_secs watch) [
        | none ↦ none
        | some secs ↦ some (record { interval_secs = secs; auto_correct = corrects })
      ])
  unfolding poll_of uses_polling poll_interval_secs
  poll_of-eq watch corrects h = ground (arith, h)

  start_watchers-eq :
      (target : WatchTarget) (watch : WatchConfig) (source : Text) (rt : Realtime) (corrects : Bool)
      (state : Watchers) {after : Watchers}
      → start_watchers path_exists start_debouncer target watch source rt corrects state ≡ ok after
      → after ≡ insert_handle target (handle_of watch source rt corrects) state
  unfolding start_watchers handle_of
  start_watchers-eq target watch source rt corrects state h =
      let (d, made, rest) =
        bind-passed (debouncer_of path_exists start_debouncer watch source rt) _ h in
      let (p, polls, done) =
        bind-passed (poll_of path_exists start_debouncer watch corrects) _ rest in
      cc (done, debouncer_of-eq watch source rt made, poll_of-eq watch corrects polls)

  register-eq :
      (target : WatchTarget) (watch : WatchConfig) (source : Text) (rt : Realtime) (corrects : Bool)
      (state : Watchers) {after : Watchers}
      → register path_exists start_debouncer target watch source rt corrects state ≡ ok after
      → after ≡ insert_handle target (handle_of watch source rt corrects) state
  unfolding register
  register-eq target watch source rt corrects state h = elim (Bool-cases (path_exists source)) [
    | inl e ↦ start_watchers-eq target watch source rt corrects state (cc (e, h))
    | inr e ↦ absurd (cc (e, h))
  ]

  pub sync_job-eq :
      (j : Job) (state : Watchers) (t : WatchTarget)
      → (sync_job path_exists start_debouncer j state).0 ≡ ok tt
      → let after = (sync_job path_exists start_debouncer j state).1 in
        (after.handles t ≡ (if same_target (job j.id) t then job_handle j else state.handles t))
        × (after.polls ≡ started_polls (job j.id) (job_handle j) ++ state.polls)
  unfolding sync_job job_handle register_job job_realtime
  sync_job-eq j state t h =
      sync_target-eq (job j.id) (should_watch_job path_exists start_debouncer j) j.watch _
        (λ watch. handle_of watch j.source_path (job_realtime watch j) false) state t
        (λ w before after e.
          register-eq (job j.id) w j.source_path (job_realtime w j) false before e)
        h

  pub sync_blueprint-eq :
      (b : Blueprint) (state : Watchers) (t : WatchTarget)
      → (sync_blueprint path_exists start_debouncer b state).0 ≡ ok tt
      → let after = (sync_blueprint path_exists start_debouncer b state).1 in
        (after.handles t
          ≡ (if same_target (blueprint b.id) t then blueprint_handle b else state.handles t))
        × (after.polls ≡ started_polls (blueprint b.id) (blueprint_handle b) ++ state.polls)
  unfolding sync_blueprint blueprint_handle register_blueprint blueprint_realtime
  sync_blueprint-eq b state t h =
      sync_target-eq (blueprint b.id) (should_watch_blueprint path_exists start_debouncer b) b.watch
        _ (λ watch. handle_of watch b.root_path (blueprint_realtime watch b) watch.auto_correct)
        state t
        (λ w before after e.
          register-eq (blueprint b.id) w b.root_path (blueprint_realtime w b) w.auto_correct before
            e)
        h
