-- ===== src/Domain/Schedule.antt =====
-- crates/autoflow-domain/src/schedule.rs. The calendar of chrono and chrono_tz is a parameter.
-- An instant is a number of nanoseconds, and a date the number of its day.
pub mod Runs
pub mod Weekly
pub mod Total
pub mod Samples
mod Tests
use tidyflow.Base.{
  ℕ, zero, suc, ◌+◌, ◌*◌, Bool, not, ◌||◌, ◌&&◌, ◌++◌, Option, none, some, List, ltb, leb, ◌==◌,
  if◌then◌else◌, Result, ok, ◌>>◌, bail_if, any, is_empty, is_some,
}
use tidyflow.Base.Text.{Text, codes, msg, text_eq}
use tidyflow.Domain.Error.{DomainError, validation}

pub data ScheduleRule : Type 0 where
  interval : (minutes : ℕ) → ScheduleRule
  daily : (hour minute : ℕ) → ScheduleRule
  weekly : (days : List ℕ) (hour minute : ℕ) → ScheduleRule

pub record ScheduleConfig : Type 0 where
  pub enabled : Bool
  pub timezone : Text
  pub rule : ScheduleRule

-- What the code calls of chrono: `and_hms_opt` with second 0, `weekday().num_days_from_sunday()`,
-- `with_timezone(tz).date_naive()` and `tz.from_local_datetime(c).latest()`.
pub record Chrono : Type 1 where
  pub NaiveDateTime : Type 0
  pub Tz : Type 0
  pub and_hms_opt : ℕ → ℕ → ℕ → Option NaiveDateTime
  pub weekday : ℕ → ℕ
  pub local : Tz
  pub utc : Tz
  pub parse : Text → Option Tz
  pub date_naive : Tz → ℕ → ℕ
  pub latest : Tz → NaiveDateTime → Option ℕ

abbrev pub local_name : Text
local_name = codes "local"

-- `Duration::minutes(1)`.
abbrev pub minute_ns : ℕ
minute_ns = 60000000000

invalid_time : ℕ → ℕ → Bool
invalid_time hour minute = ltb 23 hour || ltb 59 minute

pub validate_rule : ScheduleRule → Result DomainError (Unit {0})
unfolding invalid_time
validate_rule (interval minutes) =
    bail_if (minutes == 0) (validation (msg "schedule interval minutes must be >= 1"))
validate_rule (daily hour minute) =
    bail_if (invalid_time hour minute) (validation (msg "invalid daily schedule time"))
validate_rule (weekly days hour minute) =
    bail_if (is_empty days || any (λ d. ltb 6 d) days)
      (validation (msg "weekly schedule days must be 0-6"))
    >> bail_if (invalid_time hour minute) (validation (msg "invalid weekly schedule time"))

module _ (c : Chrono) where
  open c use {Tz, and_hms_opt, weekday, local, utc, parse, date_naive, latest}

  unfoldable pub validate : ScheduleConfig → Result DomainError (Unit {0})
  unfolding validate_rule
  validate s =
      if not s.enabled
      then ok tt
      else bail_if (not (text_eq s.timezone local_name) && not (is_some (parse s.timezone)))
          (validation (msg "invalid schedule timezone: " ++ s.timezone))
        >> validate_rule s.rule

  -- The local time hour:minute of a day, as an instant.
  abbrev pub at_time : Tz → ℕ → ℕ → ℕ → Option ℕ
  at_time tz day hour minute = elim (and_hms_opt day hour minute) [
    | none ↦ none
    | some naive ↦ latest tz naive
  ]

  run_daily : Tz → ℕ → ℕ → ℕ → Option ℕ
  run_daily tz from hour minute =
      let day = date_naive tz from in
      elim (at_time tz day hour minute) [
        | none ↦ none
        | some dt ↦ if leb dt from then at_time tz (day + 1) hour minute else some dt
      ]

  -- The rounds of `for offset in 0..8` that are left, from the day of the next round.
  pub run_weekly : ℕ → Tz → ℕ → List ℕ → ℕ → ℕ → ℕ → Option ℕ
  run_weekly zero tz from days hour minute day = none
  run_weekly (suc rounds) tz from days hour minute day =
      let rest = run_weekly rounds tz from days hour minute (day + 1) in
      if not (any (λ d. d == weekday day) days) then rest else elim (and_hms_opt day hour minute) [
        | none ↦ none
        | some naive ↦ elim (latest tz naive) [
          | none ↦ rest
          | some dt ↦ if ltb from dt then some dt else rest
        ]
      ]

  pub run_rule : Tz → ℕ → ScheduleRule → Option ℕ
  unfolding run_daily run_weekly
  run_rule tz from (interval minutes) = some (from + minutes * minute_ns)
  run_rule tz from (daily hour minute) = run_daily tz from hour minute
  run_rule tz from (weekly days hour minute) =
      run_weekly 8 tz from days hour minute (date_naive tz from)

  -- The zone of a schedule: the source has the body of `run_rule` once for each kind of zone.
  pub zone : Text → Tz
  zone name =
      if text_eq name local_name then local else elim (parse name) [ none ↦ utc | some tz ↦ tz ]

  pub next_run : ℕ → ScheduleConfig → Option ℕ
  unfolding run_rule zone
  next_run from s = run_rule (zone s.timezone) from s.rule

  unfoldable pub compute_next_run : ScheduleConfig → ℕ → Option ℕ
  unfolding next_run
  compute_next_run s from = if not s.enabled then none else next_run from s
