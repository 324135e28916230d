-- ===== src/Domain/Schedule/Runs.antt =====
-- When a schedule runs next: the instants that `compute_next_run` returns.
use tidyflow.Base.Text.{Text}
use tidyflow.Base.Search.{first_from}
use tidyflow.Base.{
  ℕ, zero, suc, ◌+◌, ◌≤◌, ◌<◌, ◌%◌, ◌≡◌, refl, true, Option, none, some, List, ltb, leb, ◌==◌, any,
  ok, arith, Bool-cases, Option-cases, inl, inr, leb→le, if◌then◌else◌,
}
use tidyflow.Domain.Schedule.{
  Chrono, ScheduleRule, interval, daily, weekly, ScheduleConfig, validate, at_time, run_daily,
  run_weekly, run_rule, zone, compute_next_run, validate_rule,
}

-- What the code relies on of the calendar in one zone.
pub record IsCalendar (c : Chrono) (tz : c.Tz) : Type 0 where
  -- A local time of a day, turned into an instant, falls on that day.
  pub date_latest :
      (day hour minute : ℕ) (naive : c.NaiveDateTime) (t : ℕ)
      → c.and_hms_opt day hour minute ≡ some naive
      → c.latest tz naive ≡ some t
      → c.date_naive tz t ≡ day
  -- The days of the week follow one another, from 0 to 6.
  pub weekday_suc : (day : ℕ) → c.weekday (day + 1) ≡ (c.weekday day + 1) % 7
  -- Each hour below 24 and minute below 60 is a time of the day.
  pub hms_ok :
      (day hour minute : ℕ)
      → hour ≤ 23
      → minute ≤ 59
      → (naive : c.NaiveDateTime) × (c.and_hms_opt day hour minute ≡ some naive)

-- No instant up to this one has a later local date: the clock was not set back over midnight just before.
abbrev pub KeepsDate : (c : Chrono) → c.Tz → ℕ → Type 0
KeepsDate c tz from = (t : ℕ) → t ≤ from → c.date_naive tz t ≤ c.date_naive tz from

module _ (c : Chrono) (tz : c.Tz) where
  -- The two steps of `at_time` that gave an instant.
  pub at_time-eq-some :
      (day hour minute t : ℕ)
      → at_time c tz day hour minute ≡ some t
      → (naive : c.NaiveDateTime) × (c.and_hms_opt day hour minute ≡ some naive)
        × (c.latest tz naive ≡ some t)
  at_time-eq-some day hour minute t e = elim (Option-cases (c.and_hms_opt day hour minute)) [
    | inl nothing ↦ absurd (none-ne-some (rw (nothing, at_time) at e))
    | inr (naive, p) ↦ (naive, p, rw (p, at_time) at e)
  ]
    where
      none-ne-some : {t : ℕ} → none ≡ some t → ⊥
      none-ne-some e = cc

  -- The run on one day, if that day has one: on a listed day of the week, at a local time that
  -- exists and is later than `from`.
  abbrev pub candidate : ℕ → List ℕ → ℕ → ℕ → ℕ → Option ℕ
  candidate from days hour minute day =
      if any (λ d. d == c.weekday day) days
      then elim (at_time c tz day hour minute) [
        | none ↦ none
        | some dt ↦ if ltb from dt then some dt else none
      ]
      else none

module _ (c : Chrono) (tz : c.Tz) (cal : IsCalendar c tz) where
  -- A time of a later day is a later instant.
  pub at_time-later :
      (from day hour minute t : ℕ)
      → KeepsDate c tz from
      → c.date_naive tz from < day
      → at_time c tz day hour minute ≡ some t
      → from < t
  at_time-later from day hour minute t kept h e =
      let (naive, p, q) = at_time-eq-some c tz day hour minute t e in
      let same : c.date_naive tz t ≡ day = cal.date_latest day hour minute naive t p q in
      elim (Bool-cases (leb t from)) [
        | inl back ↦ absurd (omega (arith, same, kept t (leb→le t from back)))
        | inr later ↦ ground arith
      ]

  run_daily-later :
      (from hour minute t : ℕ)
      → KeepsDate c tz from
      → run_daily c tz from hour minute ≡ some t
      → from < t
  unfolding run_daily
  run_daily-later from hour minute t kept e =
      ground (arith, at_time-later from (c.date_naive tz from + 1) hour minute t kept)

  run_weekly-later :
      (rounds from : ℕ) (days : List ℕ) (hour minute day t : ℕ)
      → run_weekly c rounds tz from days hour minute day ≡ some t
      → from < t
  unfolding run_weekly
  run_weekly-later zero from days hour minute day t e = cc
  run_weekly-later (suc rounds) from days hour minute day t e =
      ground (arith, run_weekly-later rounds from days hour minute (day + 1) t)

  -- The loop over the days ahead is a search for the first day that has a run.
  pub run_weekly-first_from :
      (rounds from : ℕ) (days : List ℕ) (hour minute day : ℕ)
      → hour ≤ 23
      → minute ≤ 59
      → run_weekly c rounds tz from days hour minute day
        ≡ first_from (candidate c tz from days hour minute) rounds day
  unfolding run_weekly first_from
  run_weekly-first_from zero from days hour minute day h m = refl
  run_weekly-first_from (suc rounds) from days hour minute day h m =
      let (naive, p) = cal.hms_ok day hour minute h m in
      ground (arith, p, run_weekly-first_from rounds from days hour minute (day + 1) h m)

  run_rule-later :
      (from t : ℕ) (rule : ScheduleRule)
      → KeepsDate c tz from
      → validate_rule rule ≡ ok tt
      → run_rule c tz from rule ≡ some t
      → from < t
  unfolding run_rule validate_rule
  run_rule-later from t (interval minutes) kept v e = ground arith
  run_rule-later from t (daily hour minute) kept v e = run_daily-later from hour minute t kept e
  run_rule-later from t (weekly days hour minute) kept v e =
      run_weekly-later 8 from days hour minute (c.date_naive tz from) t e

-- A valid schedule never runs next at an instant that has passed: the next run of a valid,
-- enabled schedule is later than the instant it is computed from, if no earlier instant has a later
-- local date in the schedule's zone, as it has just after a clock was set back over midnight.
pub compute_next_run-later :
    (c : Chrono) (s : ScheduleConfig) (from t : ℕ)
    → IsCalendar c (zone c s.timezone)
    → KeepsDate c (zone c s.timezone) from
    → validate c s ≡ ok tt
    → compute_next_run c s from ≡ some t
    → from < t
unfolding compute_next_run validate
compute_next_run-later c s from t cal kept v e =
    run_rule-later c (zone c s.timezone) cal from t s.rule kept (ground arith) (ground arith)

-- An enabled weekly schedule.
abbrev pub weekly_in : Text → List ℕ → ℕ → ℕ → ScheduleConfig
weekly_in name days hour minute = record {
  enabled = true;
  timezone = name;
  rule = weekly days hour minute;
}
