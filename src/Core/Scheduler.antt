-- ===== src/Core/Scheduler.antt =====
-- crates/autoflow-core/src/scheduler.rs, over the tables of jobs and of missed schedules:
-- crates/autoflow-infrastructure/src/jobs.rs and ui_state.rs. The encryption of secrets is left out.
pub mod Advance
mod Tests
use tidyflow.Base.Text.{Text}
use tidyflow.Domain.Error.{DomainError, job_not_found}
use tidyflow.Domain.Schedule.{Chrono}
use tidyflow.Domain.Job.{Job, JobSummary, summary, normalize, next_of, schedule_on}
use tidyflow.Domain.Job
use tidyflow.Core.Queue.State.{QueueState}
use tidyflow.Core.Queue.Calls.{enqueue}
use tidyflow.Base.{
  ℕ, List, Option, Bool, Result, some, none, ok, err, [], ◌∷◌, ◌+◌, ◌-◌, ◌*◌, ◌==◌, ◌&&◌, ◌||◌, not,
  if◌then◌else◌, ltb, map, any, true, false,
}

pub record MissedSchedule : Type 0 where
  pub job_id : ℕ
  pub job_name : Text
  pub scheduled_at : ℕ
  pub acknowledged : Bool

pub record World : Type 0 where
  -- The job that was saved last is the head.
  pub jobs : List Job
  pub missed : List MissedSchedule
  pub queue : QueueState

-- What is outside of the program: the libraries, the failures of the database, the readings of the
-- clock in the order in which they are taken, and the new identifiers.
pub record Outside : Type 1 where
  pub chrono : Chrono
  pub canonicalize : Text → Option Text
  pub regex_error : Text → Option Text
  pub list_error : Option DomainError
  pub record_error : ℕ → Option DomainError
  pub get_error : ℕ → Option DomainError
  pub save_error : ℕ → Option DomainError
  pub clock : ℕ → ℕ
  pub new_id : ℕ → ℕ

abbrev pub second_ns : ℕ
second_ns = 1000000000

-- `MISSED_GRACE_SECS`.
abbrev pub missed_grace_secs : ℕ
missed_grace_secs = 90

unfoldable pub find_job : ℕ → List Job → Option Job
find_job id [] = none
find_job id (j ∷ jobs) = let rest = find_job id jobs in if j.id == id then some j else rest

unfoldable pub without : ℕ → List Job → List Job
without id [] = []
without id (j ∷ jobs) = let rest = without id jobs in if j.id == id then rest else j ∷ rest

-- The next run of a summary, if it is due.
unfoldable pub due : ℕ → JobSummary → Option ℕ
due now s =
    if not s.enabled || not s.schedule_enabled
    then none
    else elim s.next_run [ none ↦ none | some t ↦ if ltb now t then none else some t ]

module _ (o : Outside) where
  open o use {
    chrono, canonicalize, regex_error, list_error, record_error, get_error, save_error, clock,
    new_id,
  }

  -- A schedule that was missed is noted once until it is acknowledged.
  noted : ℕ → ℕ → List MissedSchedule → Bool
  noted id at = any λ m. m.job_id == id && m.scheduled_at == at && not m.acknowledged

  record_missed : JobSummary → ℕ → World → Result DomainError (Unit {0}) × World
  unfolding noted
  record_missed s at w = elim (record_error s.id) [
    | some e ↦ (err e, w)
    | none ↦ if noted s.id at w.missed then (ok tt, w) else (
      ok tt,
      record w {
        missed =
            record { job_id = s.id; job_name = s.name; scheduled_at = at; acknowledged = false }
            ∷ w.missed;
      },
    )
  ]

  unfoldable pub get : ℕ → List Job → Result DomainError Job
  get id jobs = elim (get_error id) [
    | some e ↦ err e
    | none ↦ elim (find_job id jobs) [ none ↦ err job_not_found | some j ↦ ok j ]
  ]

  unfoldable pub save : Job → List Job → Result DomainError (List Job)
  save j jobs = elim (Job.validate chrono canonicalize regex_error j) [
    | err e ↦ err e
    | ok u ↦ elim (save_error j.id) [ some e ↦ err e | none ↦ ok (j ∷ without j.id jobs) ]
  ]

  -- `job.normalize()`, and the next run of the schedule; each reads the clock.
  unfoldable pub advance : ℕ → Job → Job
  advance i job =
      let j = normalize chrono (clock i) job in
      if schedule_on j.schedule
      then record j { next_run = next_of chrono j.schedule (clock (i + 1)) }
      else j

  -- A job that cannot be loaded or saved is left; one that cannot be enqueued keeps its new schedule.
  reschedule : ℕ → ℕ → Result DomainError Job → World → World
  reschedule id i (err e) w = w
  reschedule id i (ok job) w = elim (save (advance i job) w.jobs) [
    | err e ↦ w
    | ok jobs ↦ record w { jobs = jobs; queue = (enqueue id (new_id i) w.queue).1 }
  ]

  -- A run that is late by more than the grace is noted.
  unfoldable pub note_missed : ℕ → JobSummary → ℕ → World → Result DomainError (Unit {0}) × World
  unfolding record_missed
  note_missed now s at w =
      if ltb (missed_grace_secs * second_ns) (now - at) then record_missed s at w else (ok tt, w)

  unfoldable pub start_due : ℕ → ℕ → JobSummary → ℕ → World → Result DomainError (Unit {0}) × World
  unfolding note_missed reschedule
  start_due now i s at w =
      let r = note_missed now s at w in
      elim r.0 [ err e ↦ (err e, r.1) | ok u ↦ (ok tt, reschedule s.id i (get s.id w.jobs) r.1) ]

  unfoldable pub visit : ℕ → ℕ → JobSummary → World → Result DomainError (Unit {0}) × World
  unfolding start_due
  visit now i s w = elim (due now s) [ none ↦ (ok tt, w) | some at ↦ start_due now i s at w ]

  -- The loop; each round may take two readings of the clock.
  unfoldable pub visit_all : ℕ → ℕ → List JobSummary → World → Result DomainError (Unit {0}) × World
  visit_all now i [] w = (ok tt, w)
  visit_all now i (s ∷ rest) w =
      let r = visit now i s w in
      let after = visit_all now (i + 2) rest r.1 in elim r.0 [ err e ↦ r | ok u ↦ after ]

  unfoldable pub tick : World → Result DomainError (Unit {0}) × World
  tick w = elim list_error [
    | some e ↦ (err e, w)
    | none ↦ visit_all (clock 0) 1 (map summary w.jobs) w
  ]
