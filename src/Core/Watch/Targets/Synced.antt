-- ===== src/Core/Watch/Targets/Synced.antt =====
-- The loops of `sync_all`.
use tidyflow.Core.Watch.Polling.{WatchTarget, blueprint, job}
use tidyflow.Core.Watch.Targets.{
  PollTask, Watchers, Realtime, SyncError, WatchHandle, same_target, sync_all, sync_blueprint,
  sync_each, sync_job, sync_listed,
}
use tidyflow.Core.Watch.Targets.Registered.{
  blueprint_handle, job_handle, started_polls, sync_blueprint-eq, sync_job-eq,
}
use tidyflow.Domain.Blueprint.{Blueprint}
use tidyflow.Domain.Error.{DomainError}
use tidyflow.Domain.Job.{Job}
use tidyflow.Base.Text.{Text}
use tidyflow.Base.{
  ℕ, List, [], ◌∷◌, ◌++◌, All, Bool, inl, inr, true, false, any, not, ◌&&◌, if◌then◌else◌, Option,
  Result, Result-cases, ok, err, ◌≡◌, ◌∙◌, ap, arith, refl, sym, subst,
}

same_target_refl : (t : WatchTarget) → same_target t t ≡ true
unfolding same_target
same_target_refl (job i) = ground arith
same_target_refl (blueprint i) = ground arith

module _ {A : Type 0} (target_of : A → WatchTarget) where
  touches : WatchTarget → Result DomainError A → Bool
  touches t (ok a) = same_target (target_of a) t
  touches t (err e) = false

  -- No two have one target.
  unfoldable pub distinct : List (Result DomainError A) → Bool
  unfolding touches
  distinct [] = true
  distinct (ok a ∷ rest) = not (any (touches (target_of a)) rest) && distinct rest
  distinct (err e ∷ rest) = distinct rest

  module _ (handle : A → Option WatchHandle) where
    Has : Watchers → Result DomainError A → Type 0
    Has state (ok a) = state.handles (target_of a) ≡ handle a
    Has state (err e) = Unit

    -- Each that is given has its handle.
    unfoldable pub HaveHandles : Watchers → List (Result DomainError A) → Type 0
    unfolding Has
    HaveHandles state listed = All (Has state) listed

    -- The polls that run when each that is given has insert_handle its own, and none has ended.
    unfoldable pub add_polls : List (Result DomainError A) → List PollTask → List PollTask
    add_polls [] polls = polls
    add_polls (ok a ∷ rest) polls = add_polls rest (started_polls (target_of a) (handle a) ++ polls)
    add_polls (err e ∷ rest) polls = add_polls rest polls

    module _ (sync : A → Watchers → Result SyncError (Unit {0}) × Watchers)
        (law : (a : A) (state : Watchers) (t : WatchTarget)
          → (sync a state).0 ≡ ok tt
          → ((sync a state).1.handles t
              ≡ (if same_target (target_of a) t then handle a else state.handles t))
            × ((sync a state).1.polls
                ≡ started_polls (target_of a) (handle a) ++ state.polls)) where
      sync_each-frame :
          (listed : List (Result DomainError A)) (state : Watchers) (t : WatchTarget)
          → (sync_each sync listed state).0 ≡ ok tt
          → any (touches t) listed ≡ false
          → (sync_each sync listed state).1.handles t ≡ state.handles t
      unfolding sync_each touches
      sync_each-frame [] state t h other = refl
      sync_each-frame (err e ∷ rest) state t h other = absurd (ground (arith, h))
      sync_each-frame (ok a ∷ rest) state t h other = elim (Result-cases (sync a state).0) [
        | inl (_, e) ↦
            let after = (sync a state).1 in
            let first = (law a state t e).0 in
            let others =
              sync_each-frame rest after t (ground (arith, e, h)) (ground (arith, other)) in
            ground (arith, e, first, others, other)
        | inr (x, e) ↦ absurd (ground (arith, e, h))
      ]

      sync_each-ok :
          (a : A) (rest : List (Result DomainError A)) (state : Watchers)
          → (sync a state).0 ≡ ok tt
          → sync_each sync (ok a ∷ rest) state ≡ sync_each sync rest (sync a state).1
      unfolding sync_each
      sync_each-ok a rest state e = cc e

      sync_each-polls :
          (listed : List (Result DomainError A)) (state : Watchers)
          → (sync_each sync listed state).0 ≡ ok tt
          → (sync_each sync listed state).1.polls ≡ add_polls listed state.polls
      unfolding sync_each add_polls
      sync_each-polls [] state h = refl
      sync_each-polls (err e ∷ rest) state h = absurd (ground (arith, h))
      sync_each-polls (ok a ∷ rest) state h = elim (Result-cases (sync a state).0) [
        | inl (_, e) ↦
            let step = sync_each-ok a rest state e in
            let polls = sync_each-polls rest (sync a state).1 (subst (λ m. m.0 ≡ ok tt) step h) in
            let own = (law a state (target_of a) e).1 in
            ap (λ m. m.1.polls) step ∙ polls ∙ ap (add_polls rest) own
        | inr (x, e) ↦ absurd (ground (arith, e, h))
      ]

      sync_each-HaveHandles :
          (listed : List (Result DomainError A)) (state : Watchers)
          → (sync_each sync listed state).0 ≡ ok tt
          → distinct listed ≡ true
          → HaveHandles (sync_each sync listed state).1 listed
      unfolding HaveHandles Has distinct sync_each
      sync_each-HaveHandles [] state h apart = tt
      sync_each-HaveHandles (err e ∷ rest) state h apart = absurd (ground (arith, h))
      sync_each-HaveHandles (ok a ∷ rest) state h apart = elim (Result-cases (sync a state).0) [
        | inl (_, e) ↦
            let after = (sync a state).1 in
            let step = sync_each-ok a rest state e in
            let h_rest = subst (λ m. m.0 ≡ ok tt) step h in
            let own = same_target_refl (target_of a) in
            let kept = sync_each-frame rest after (target_of a) h_rest (ground (arith, apart)) in
            let set = (law a state (target_of a) e).0 in
            let others = sync_each-HaveHandles rest after h_rest (ground (arith, apart)) in
            subst (λ m. All (Has m.1) (ok a ∷ rest)) (sym step)
              (ground (arith, kept, set, own), others)
        | inr (x, e) ↦ absurd (ground (arith, e, h))
      ]

abbrev pub job_target : Job → WatchTarget
job_target j = job j.id

abbrev pub blueprint_target : Blueprint → WatchTarget
blueprint_target b = blueprint b.id

untouched :
    (i : ℕ) (blueprints : List (Result DomainError Blueprint))
    → any (touches blueprint_target (job i)) blueprints ≡ false
unfolding touches same_target
untouched i [] = refl
untouched i (ok b ∷ rest) = untouched i rest
untouched i (err e ∷ rest) = untouched i rest

jobs-kept :
    (handle : Job → Option WatchHandle) (jobs : List (Result DomainError Job)) (m n : Watchers)
    → ((i : ℕ) → n.handles (job i) ≡ m.handles (job i))
    → HaveHandles job_target handle m jobs
    → HaveHandles job_target handle n jobs
unfolding HaveHandles Has
jobs-kept handle [] m n same h = tt
jobs-kept handle (ok j ∷ rest) m n same (p, h) = (same j.id ∙ p, jobs-kept handle rest m n same h)
jobs-kept handle (err e ∷ rest) m n same (p, h) = (tt, jobs-kept handle rest m n same h)

module _ (path_exists : Text → Bool) (start_debouncer : Text → Realtime → Option DomainError) where
  sync_all-ok :
      (jobs : List (Result DomainError Job)) (blueprints : List (Result DomainError Blueprint))
      (state : Watchers)
      → let first = sync_each (sync_job path_exists start_debouncer) jobs state in
        first.0 ≡ ok tt
        → sync_all path_exists start_debouncer (ok jobs) (ok blueprints) state
          ≡ sync_each (sync_blueprint path_exists start_debouncer) blueprints first.1
  unfolding sync_all sync_listed
  sync_all-ok jobs blueprints state e = cc e

  -- When `sync_all` succeeds on jobs and blueprints of distinct identifiers, then whatever was registered
  -- before, each job and each blueprint that is enabled, has an enabled watch and a directory that
  -- exists has a handle, with a debouncer exactly if its mode is realtime or hybrid and a poll at the
  -- configured interval exactly if it is polling or hybrid, and each other one has no handle. The poll
  -- tasks that run are those that ran before, also where their target has no handle now or another one,
  -- and the polls of these handles.
  pub sync_all-HaveHandles :
      (jobs : List (Result DomainError Job)) (blueprints : List (Result DomainError Blueprint))
      (state : Watchers)
      → distinct job_target jobs ≡ true
      → distinct blueprint_target blueprints ≡ true
      → (sync_all path_exists start_debouncer (ok jobs) (ok blueprints) state).0 ≡ ok tt
      → let after = (sync_all path_exists start_debouncer (ok jobs) (ok blueprints) state).1 in
        HaveHandles job_target (job_handle path_exists start_debouncer) after jobs
        × HaveHandles blueprint_target
            (blueprint_handle path_exists start_debouncer)
            after
            blueprints
        × (after.polls
            ≡ add_polls blueprint_target
                (blueprint_handle path_exists start_debouncer)
                blueprints
                (add_polls job_target (job_handle path_exists start_debouncer) jobs state.polls))
  unfolding sync_all sync_listed
  sync_all-HaveHandles jobs blueprints state jobs_apart blueprints_apart h =
      let sync_j = sync_job path_exists start_debouncer in
      let sync_b = sync_blueprint path_exists start_debouncer in
      let law_j = sync_job-eq path_exists start_debouncer in
      let law_b = sync_blueprint-eq path_exists start_debouncer in
      let j_handle = job_handle path_exists start_debouncer in
      let b_handle = blueprint_handle path_exists start_debouncer in
      let first = sync_each sync_j jobs state in
      let last = sync_each sync_b blueprints first.1 in
      elim (Result-cases first.0) [
        | inl (_, e) ↦
            let step = sync_all-ok jobs blueprints state e in
            let h_last = subst (λ m. m.0 ≡ ok tt) step h in
            let kept : ((i : ℕ) → last.1.handles (job i) ≡ first.1.handles (job i)) = λ i.
              sync_each-frame blueprint_target b_handle sync_b law_b blueprints first.1 (job i)
                h_last (untouched i blueprints) in
            let have_j =
              sync_each-HaveHandles job_target j_handle sync_j law_j jobs state e jobs_apart in
            let have_b =
              sync_each-HaveHandles blueprint_target b_handle sync_b law_b blueprints first.1 h_last
                blueprints_apart in
            let polls =
              add_polls blueprint_target b_handle blueprints
                (add_polls job_target j_handle jobs state.polls) in
            let same_polls =
              sync_each-polls blueprint_target b_handle sync_b law_b blueprints first.1 h_last
              ∙ ap (add_polls blueprint_target b_handle blueprints)
                  (sync_each-polls job_target j_handle sync_j law_j jobs state e) in
            subst
              (λ m.
                HaveHandles job_target j_handle m.1 jobs
                × HaveHandles blueprint_target b_handle m.1 blueprints
                × (m.1.polls ≡ polls))
              (sym step) (jobs-kept j_handle jobs first.1 last.1 kept have_j, have_b, same_polls)
        | inr (x, e) ↦ absurd (ground (arith, e, h))
      ]
