-- ===== src/Domain/Schedule/Total.antt =====
-- About the existence of a next run.
use tidyflow.Base.Search.{first_from-hit, next_number}
use tidyflow.Domain.Schedule.Runs.{
  IsCalendar, KeepsDate, at_time-later, candidate, run_weekly-first_from,
}
use tidyflow.Domain.Schedule.{
  compute_next_run, Chrono, validate, run_rule, ScheduleConfig, zone, at_time, validate_rule,
  ScheduleRule, run_weekly, interval, minute_ns, run_daily, daily, weekly,
}
use native.Mathlib.Nat.{add-zero}
use tidyflow.Base.{
  ℕ, ◌≡◌, List, some, ◌≤◌, ◌+◌, ◌<◌, ◌∷◌, ◌%◌, ◌-◌, true, arith, suc, ap, ok, zero, ◌*◌, ◌∙◌,
  Bool-cases, leb, inl, inr, refl, [],
}

-- Every local time of the zone names an instant: no clock change skips it.
abbrev pub NoGaps : (c : Chrono) → c.Tz → Type 0
NoGaps c tz = (naive : c.NaiveDateTime) → (t : ℕ) × (c.latest tz naive ≡ some t)

module _ (c : Chrono) (tz : c.Tz) (cal : IsCalendar c tz) where
  weekday-add : (day k : ℕ) → c.weekday (day + 1 + k) ≡ (c.weekday day + 1 + k) % 7
  weekday-add day zero = rw add-zero (rw add-zero (cal.weekday_suc day))
  weekday-add day (suc k) =
      omega (arith, ap c.weekday (regroup day k), cal.weekday_suc (day + 1 + k), weekday-add day k)
    where
      regroup : (day k : ℕ) → day + 1 + suc k ≡ day + 1 + k + 1
      regroup day k = omega arith

  -- Each day of the week is one of the next seven days.
  next_weekday : (day w : ℕ) → w ≤ 6 → (k : ℕ) × (k < 7) × (c.weekday (day + suc k) ≡ w)
  next_weekday day w h =
      let k = (w + 7 - (c.weekday day + 1) % 7) % 7 in
      let there : c.weekday (day + 1 + k) ≡ w = omega (arith, weekday-add day k) in
      (k, omega arith, rw (next_number day k) at there)

  module _ (gaps : NoGaps c tz) where
    at_time-total :
        (day hour minute : ℕ)
        → hour ≤ 23
        → minute ≤ 59
        → (t : ℕ) × (at_time c tz day hour minute ≡ some t)
    at_time-total day hour minute h m =
        let (naive, p) = cal.hms_ok day hour minute h m in
        let (t, q) = gaps naive in (t, ground (arith, p, q))

    run_daily-total :
        (from hour minute : ℕ)
        → hour ≤ 23
        → minute ≤ 59
        → (t : ℕ) × (run_daily c tz from hour minute ≡ some t)
    unfolding run_daily
    run_daily-total from hour minute h m =
        let day = c.date_naive tz from in
        let (t, p) = at_time-total day hour minute h m in
        let (u, q) = at_time-total (day + 1) hour minute h m in
        elim (Bool-cases (leb t from)) [
          | inl back ↦ (u, ground (arith, p, q))
          | inr later ↦ (t, ground (arith, p))
        ]

    run_weekly-total :
        (from : ℕ) (days : List ℕ) (hour minute w : ℕ) (rest : List ℕ)
        → KeepsDate c tz from
        → days ≡ w ∷ rest
        → w ≤ 6
        → hour ≤ 23
        → minute ≤ 59
        → (t : ℕ) × (run_weekly c 8 tz from days hour minute (c.date_naive tz from) ≡ some t)
    run_weekly-total from days hour minute w rest kept listed hw h m =
        let day = c.date_naive tz from in
        let (k, lt, same) = next_weekday day w hw in
        let (t, p) = at_time-total (day + suc k) hour minute h m in
        let run = candidate c tz from days hour minute in
        let later : from < t =
          at_time-later c tz cal from (day + suc k) hour minute t kept (omega arith) p in
        let hit : run (day + suc k) ≡ some t = ground (arith, p, listed, same, later) in
        let (u, e) = first_from-hit run 8 day (suc k) (omega arith) hit in
        (u, run_weekly-first_from c tz cal 8 from days hour minute day h m ∙ e)

    run_rule-total :
        (from : ℕ) (rule : ScheduleRule)
        → KeepsDate c tz from
        → validate_rule rule ≡ ok tt
        → (t : ℕ) × (run_rule c tz from rule ≡ some t)
    unfolding run_rule validate_rule
    run_rule-total from (interval minutes) kept v = (from + minutes * minute_ns, refl)
    run_rule-total from (daily hour minute) kept v =
        run_daily-total from hour minute (ground arith) (ground arith)
    run_rule-total from (weekly [] hour minute) kept v = cc
    run_rule-total from (weekly (w ∷ rest) hour minute) kept v =
        run_weekly-total from (w ∷ rest) hour minute w rest kept refl (ground arith) (ground arith)
          (ground arith)

-- A valid, enabled schedule always has a next run, in a zone where every local time exists, from an
-- instant that no earlier one precedes with a later local date.
pub compute_next_run-total :
    (c : Chrono) (s : ScheduleConfig) (from : ℕ)
    → IsCalendar c (zone c s.timezone)
    → KeepsDate c (zone c s.timezone) from
    → NoGaps c (zone c s.timezone)
    → s.enabled ≡ true
    → validate c s ≡ ok tt
    → (t : ℕ) × (compute_next_run c s from ≡ some t)
unfolding compute_next_run validate
compute_next_run-total c s from cal kept gaps on v =
    let (t, e) = run_rule-total c (zone c s.timezone) cal gaps from s.rule kept (ground arith) in
    (t, ground (arith, e))
