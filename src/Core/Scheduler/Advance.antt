-- ===== src/Core/Scheduler/Advance.antt =====
-- About the schedule of a job that the scheduler enqueues.
use tidyflow.Domain.Job.Normal.{normalize-IsNormal}
use tidyflow.Domain.Job.Valid.{validate-schedule}
use tidyflow.Domain.Error.{DomainError}
use tidyflow.Domain.Schedule.{Chrono, zone, compute_next_run, ScheduleConfig}
use tidyflow.Domain.Schedule
use tidyflow.Domain.Schedule.Runs.{IsCalendar, KeepsDate, compute_next_run-later}
use tidyflow.Domain.Job.{
  Job, JobSummary, summary, normalize, next_of, schedule_on, stop_schedule, watch_on, validate,
}
use tidyflow.Core.Scheduler.{
  Outside, World, find_job, without, get, save, advance, due, visit, start_due, reschedule,
  note_missed,
}
use tidyflow.Base.{
  ℕ, List, Option, Result, some, none, ok, err, [], ◌∷◌, ◌+◌, ◌≡◌, ◌≢◌, ◌≤◌, ◌<◌, false,
  Result-cases, Option-cases, Bool-cases, inl, inr, arith, refl, sym, subst, ◌∙◌, ap,
}

find_job-id : (id : ℕ) (jobs : List Job) (j : Job) → find_job id jobs ≡ some j → j.id ≡ id
unfolding find_job
find_job-id id [] j e = cc
find_job-id id (x ∷ jobs) j e = ground (arith, find_job-id id jobs j)

next_of-off :
    (c : Chrono) (s : Option ScheduleConfig) (now : ℕ)
    → schedule_on s ≡ false
    → next_of c s now ≡ none
unfolding next_of
next_of-off c none now off = refl
next_of-off c (some s) now off = ground (arith, off)

next_of-later :
    (c : Chrono) (schedule : Option ScheduleConfig) (from t : ℕ)
    → ((tz : c.Tz) → IsCalendar c tz)
    → ((s : ScheduleConfig) → schedule ≡ some s → KeepsDate c (zone c s.timezone) from)
    → ((s : ScheduleConfig) → schedule ≡ some s → Schedule.validate c s ≡ ok tt)
    → next_of c schedule from ≡ some t
    → from < t
unfolding next_of
next_of-later c none from t cal kept valid e = cc
next_of-later c (some s) from t cal kept valid e =
    compute_next_run-later c s from t (cal (zone c s.timezone)) (kept s refl) (valid s refl)
      (ground arith)

module _ (o : Outside) where
  -- At the second reading, the zone of the schedule has no instant behind it with a later local date.
  abbrev pub KeepsDates : ℕ → Option ScheduleConfig → Type 0
  KeepsDates i schedule =
      (s : ScheduleConfig)
      → schedule ≡ some s
      → KeepsDate o.chrono (zone o.chrono s.timezone) (o.clock (i + 1))

  -- Normalisation may turn a schedule off, and leaves its zone.
  stop_schedule-timezone :
      (schedule : Option ScheduleConfig) (t : ScheduleConfig)
      → stop_schedule schedule ≡ some t
      → (s : ScheduleConfig) × (schedule ≡ some s) × (s.timezone ≡ t.timezone)
  unfolding stop_schedule
  stop_schedule-timezone none t e = absurd (ground (arith, e))
  stop_schedule-timezone (some s) t e = (s, refl, ground (arith, e))

  advance-timezone :
      (i : ℕ) (job : Job) (t : ScheduleConfig)
      → (advance o i job).schedule ≡ some t
      → (s : ScheduleConfig) × (job.schedule ≡ some s) × (s.timezone ≡ t.timezone)
  unfolding advance normalize
  advance-timezone i job t e = elim (Bool-cases (watch_on job.watch)) [
    | inl on ↦ stop_schedule-timezone job.schedule t (ground (arith, on, e))
    | inr off ↦ (t, ground (arith, off, e), refl)
  ]

  advance-KeepsDates :
      (i : ℕ) (job : Job) → KeepsDates i job.schedule → KeepsDates i (advance o i job).schedule
  advance-KeepsDates i job kept t e =
      let (s, has, same) = advance-timezone i job t e in
      subst (λ name. KeepsDate o.chrono (zone o.chrono name) (o.clock (i + 1))) same (kept s has)

  -- The next run of an advanced job is that of its schedule at the second reading.
  advance-next_run :
      (i : ℕ) (job : Job)
      → (advance o i job).next_run ≡ next_of o.chrono (advance o i job).schedule (o.clock (i + 1))
  unfolding advance
  advance-next_run i job =
      let j = normalize o.chrono (o.clock i) job in
      let normal = (normalize-IsNormal o.chrono (o.clock i) job).0 in
      elim (Bool-cases (schedule_on j.schedule)) [
        | inl on ↦ ground (arith, on)
        | inr off ↦ ground (
          arith,
          off,
          normal.next_of_schedule,
          next_of-off o.chrono j.schedule (o.clock i) off,
          next_of-off o.chrono j.schedule (o.clock (i + 1)) off,
        )
      ]

  advance-id : (i : ℕ) (job : Job) → (advance o i job).id ≡ job.id
  unfolding advance normalize
  advance-id i job = ground arith

  -- What was saved is found, and is valid.
  save-eq-ok :
      (j : Job) (jobs jobs' : List Job)
      → save o j jobs ≡ ok jobs'
      → (validate o.chrono o.canonicalize o.regex_error j ≡ ok tt) × (find_job j.id jobs' ≡ some j)
  unfolding save find_job
  save-eq-ok j jobs jobs' e =
      elim (Result-cases (validate o.chrono o.canonicalize o.regex_error j)) [
        | inr (x, bad) ↦ ground (arith, bad)
        | inl (u, good) ↦ elim (Option-cases (o.save_error j.id)) [
          | inr (x, bad) ↦ ground (arith, good, bad)
          | inl fine ↦
              let end : jobs' ≡ j ∷ without j.id jobs = ground (arith, good, fine) in
              (good, rw end (ground arith))
        ]
      ]

  get-eq-ok : (id : ℕ) (jobs : List Job) (j : Job) → get o id jobs ≡ ok j → j.id ≡ id
  unfolding get
  get-eq-ok id jobs j e = ground (arith, e, find_job-id id jobs j)

  advance-not_due :
      (i now : ℕ) (job : Job)
      → ((tz : o.chrono.Tz) → IsCalendar o.chrono tz)
      → KeepsDates i job.schedule
      → validate o.chrono o.canonicalize o.regex_error (advance o i job) ≡ ok tt
      → now ≤ o.clock (i + 1)
      → due now (summary (advance o i job)) ≡ none
  unfolding due summary
  advance-not_due i now job cal kept v before =
      let j = advance o i job in
      elim (Option-cases j.next_run) [
        | inl nothing ↦ ground (arith, nothing)
        | inr (t, at) ↦
            let later =
              next_of-later o.chrono j.schedule (o.clock (i + 1)) t cal
                (advance-KeepsDates i job kept)
                (λ s has. validate-schedule o.chrono o.canonicalize o.regex_error j s v has)
                (sym (advance-next_run i job) ∙ at) in
            ground (arith, at, later)
      ]

  reschedule-advances :
      (id i : ℕ) (r : Result DomainError Job) (w : World)
      → ((job : Job) → r ≡ ok job → job.id ≡ id)
      → ((tz : o.chrono.Tz) → IsCalendar o.chrono tz)
      → ((job : Job) → r ≡ ok job → KeepsDates i job.schedule)
      → (reschedule o id i r w).queue ≢ w.queue
      → (j : Job) × (find_job id (reschedule o id i r w).jobs ≡ some j)
        × ((now : ℕ) → now ≤ o.clock (i + 1) → due now (summary j) ≡ none)
  unfolding reschedule
  reschedule-advances id i (err e) w same_id cal kept changed = absurd (changed refl)
  reschedule-advances id i (ok job) w same_id cal kept changed =
      let j = advance o i job in
      elim (Result-cases (save o j w.jobs)) [
        | inr (x, bad) ↦ absurd (changed (ground (arith, bad)))
        | inl (jobs, saved) ↦
            let (v, found) = save-eq-ok j w.jobs jobs saved in
            let named : j.id ≡ id = advance-id i job ∙ same_id job refl in
            (
              j,
              ground (arith, saved, found, named),
              λ now before. advance-not_due i now job cal (kept job refl) v before,
            )
      ]

  note_missed-queue :
      (now at : ℕ) (s : JobSummary) (w : World) → (note_missed o now s at w).1.queue ≡ w.queue
  unfolding note_missed
  note_missed-queue now at s w = ground arith

  start_due-advances :
      (now i at : ℕ) (s : JobSummary) (w : World)
      → ((tz : o.chrono.Tz) → IsCalendar o.chrono tz)
      → ((job : Job) → get o s.id w.jobs ≡ ok job → KeepsDates i job.schedule)
      → (start_due o now i s at w).1.queue ≢ w.queue
      → (j : Job) × (find_job s.id (start_due o now i s at w).1.jobs ≡ some j)
        × ((later : ℕ) → later ≤ o.clock (i + 1) → due later (summary j) ≡ none)
  unfolding start_due
  start_due-advances now i at s w cal kept changed =
      let r = note_missed o now s at w in
      let same_queue = note_missed-queue now at s w in
      elim (Result-cases r.0) [
        | inr (x, bad) ↦ absurd (changed (ground (arith, bad, same_queue)))
        | inl (u, fine) ↦
            let end : (start_due o now i s at w).1 ≡ reschedule o s.id i (get o s.id w.jobs) r.1 =
              ground (arith, fine) in
            rw end (
              reschedule-advances s.id i (get o s.id w.jobs) r.1
                (λ job got. get-eq-ok s.id w.jobs job got) cal kept
                (λ same. changed (ap (λ x. x.queue) end ∙ same ∙ same_queue)))
      ]

-- A job for which the scheduler enqueues a run is advanced by then: the job that is stored is not due
-- at any instant up to the clock's reading that its new schedule was computed from, if no earlier
-- instant than that reading has a later local date in the schedule's zone.
pub visit-advances :
    (o : Outside) (now i : ℕ) (s : JobSummary) (w : World)
    → ((tz : o.chrono.Tz) → IsCalendar o.chrono tz)
    → ((job : Job) → get o s.id w.jobs ≡ ok job → KeepsDates o i job.schedule)
    → (visit o now i s w).1.queue ≢ w.queue
    → (j : Job) × (find_job s.id (visit o now i s w).1.jobs ≡ some j)
      × ((later : ℕ) → later ≤ o.clock (i + 1) → due later (summary j) ≡ none)
unfolding visit
visit-advances o now i s w cal kept changed = elim (Option-cases (due now s)) [
  | inl idle ↦ absurd (changed (ground (arith, idle)))
  | inr (at, is_due) ↦
      let end : visit o now i s w ≡ start_due o now i s at w = ground (arith, is_due) in
      rw end (start_due-advances o now i at s w cal kept (rw end at changed))
]
