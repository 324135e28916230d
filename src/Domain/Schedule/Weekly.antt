-- ===== src/Domain/Schedule/Weekly.antt =====
-- When a weekly schedule runs next, told without the loop.
use tidyflow.Base.Search.{IsFirst, first_from, first_from-eq-some, first_from-IsFirst}
use tidyflow.Base.Text.{Text}
use tidyflow.Base.{
  ℕ, ◌+◌, ◌<◌, ◌≡◌, ◌↔◌, true, some, List, ◌==◌, any, ok, arith, ap, Bool-cases, Option-cases, inl,
  inr, sym, ◌∙◌,
}
use tidyflow.Domain.Schedule.{Chrono, at_time, compute_next_run, run_weekly, validate, zone}
use tidyflow.Domain.Schedule.Runs.{
  IsCalendar, at_time-eq-some, candidate, run_weekly-first_from, weekly_in,
}

module _ (c : Chrono) (tz : c.Tz) (from : ℕ) (days : List ℕ) (hour minute : ℕ) where
  -- A run of the schedule on this day, at this instant: the day of the week is listed, the instant is the
  -- latest that has the local time, and it is still to come.
  pub record RunsAt (day t : ℕ) : Type 0 where
    pub listed : any (λ d. d == c.weekday day) days ≡ true
    pub naive : c.NaiveDateTime
    pub is_time : c.and_hms_opt day hour minute ≡ some naive
    pub is_latest : c.latest tz naive ≡ some t
    pub to_come : from < t

  run_of_candidate : (day t : ℕ) → candidate c tz from days hour minute day ≡ some t → RunsAt day t
  run_of_candidate day t e = elim (Bool-cases (any (λ d. d == c.weekday day) days)) [
    | inr unlisted ↦ absurd (ground (arith, e, unlisted))
    | inl listed ↦ elim (Option-cases (at_time c tz day hour minute)) [
      | inl missing ↦ absurd (ground (arith, e, listed, missing))
      | inr (u, at) ↦
          let same : u ≡ t = ground (arith, e, listed, at) in
          let (naive, is_time, latest) =
            at_time-eq-some c tz day hour minute t (at ∙ ap some same) in
          record {
            listed = listed;
            naive = naive;
            is_time = is_time;
            is_latest = latest;
            to_come = ground (arith, e, listed, at);
          }
    ]
  ]

  candidate_of_run : (day t : ℕ) → RunsAt day t → candidate c tz from days hour minute day ≡ some t
  candidate_of_run day t r = ground (arith, r.listed, r.is_time, r.is_latest, r.to_come)

  -- The run of the first of the eight days from this one that has a run.
  abbrev pub IsNext : ℕ → ℕ → Type 0
  IsNext day t = (o : ℕ) × (o < 8) × RunsAt (day + o) t × ((k u : ℕ) → k < o → ¬ RunsAt (day + k) u)

  IsNext-of_first :
      (day t o : ℕ) → IsFirst (candidate c tz from days hour minute) 8 day t o → IsNext day t
  IsNext-of_first day t o (short, here, before) = (
    o,
    short,
    run_of_candidate (day + o) t here,
    λ k u lt r. ground (arith, before k lt, candidate_of_run (day + k) u r),
  )

  first_of_IsNext :
      (day t : ℕ) → IsNext day t → first_from (candidate c tz from days hour minute) 8 day ≡ some t
  first_of_IsNext day t (o, short, here, before) =
      let run = candidate c tz from days hour minute in
      first_from-IsFirst run 8 day o t (
        short,
        candidate_of_run (day + o) t here,
        λ k lt. elim (Option-cases (run (day + k))) [
          | inl missed ↦ missed
          | inr (u, hit) ↦ absurd (before k u lt (run_of_candidate (day + k) u hit))
        ],
      )

-- An enabled, valid weekly schedule runs next at an instant exactly if that is its run on the first of
-- the eight days from the current local date that has a run: where the day of the week is listed and
-- the instant, the latest with the local time, is later than the one it is computed from.
pub compute_next_run-weekly :
    (c : Chrono) (name : Text) (days : List ℕ) (hour minute from t : ℕ)
    → IsCalendar c (zone c name)
    → validate c (weekly_in name days hour minute) ≡ ok tt
    → (compute_next_run c (weekly_in name days hour minute) from ≡ some t)
      ↔ IsNext c (zone c name) from days hour minute (c.date_naive (zone c name) from) t
unfolding compute_next_run validate
compute_next_run-weekly c name days hour minute from t cal v =
    let tz = zone c name in
    let day = c.date_naive tz from in
    let loop : run_weekly c 8 tz from days hour minute day
        ≡ first_from (candidate c tz from days hour minute) 8 day =
      run_weekly-first_from c tz cal 8 from days hour minute day (ground arith) (ground arith) in
    (
      λ e.
          let (o, first) =
            first_from-eq-some (candidate c tz from days hour minute) 8 day t (sym loop ∙ e) in
          IsNext-of_first c tz from days hour minute day t o first,
      λ next. loop ∙ first_of_IsNext c tz from days hour minute day t next,
    )
