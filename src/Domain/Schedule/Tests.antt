-- ===== src/Domain/Schedule/Tests.antt =====
-- The schedule's theorems at a calendar with one zone.
use tidyflow.Domain.Schedule.Samples.{
  day_ns, time_ns, greenwich, twice_a_week, greenwich-IsCalendar, greenwich-KeepsDate,
}
use tidyflow.Domain.Schedule.Total.{compute_next_run-total}
use tidyflow.Base.Text.{text_eq}
use tidyflow.Domain.Schedule.Runs.{compute_next_run-later}
use tidyflow.Domain.Schedule.Weekly.{IsNext, compute_next_run-weekly}
use tidyflow.Domain.Schedule.{zone, compute_next_run, validate, local_name}
use tidyflow.Base.{ℕ, ◌+◌, ◌≡◌, ◌↔◌, some, ◌<◌, ok, ◌∷◌, refl, []}

abbrev friday : ℕ
friday = day_ns + time_ns 8 30

twice_a_week_valid : validate greenwich twice_a_week ≡ ok tt
unfolding validate text_eq
twice_a_week_valid = refl

runs_on_friday : compute_next_run greenwich twice_a_week 1000 ≡ some friday
unfolding compute_next_run text_eq
runs_on_friday = refl

compute_next_run-later_example : 1000 < friday
unfolding zone text_eq
compute_next_run-later_example =
    compute_next_run-later greenwich twice_a_week 1000 friday greenwich-IsCalendar
      (greenwich-KeepsDate 1000) twice_a_week_valid runs_on_friday

compute_next_run-weekly_example :
    (compute_next_run greenwich twice_a_week 1000 ≡ some friday)
    ↔ IsNext greenwich tt 1000 (1 ∷ 5 ∷ []) 8 30 0 friday
unfolding zone text_eq
compute_next_run-weekly_example =
    compute_next_run-weekly greenwich local_name (1 ∷ 5 ∷ []) 8 30 1000 friday greenwich-IsCalendar
      twice_a_week_valid

compute_next_run-total_example : (t : ℕ) × (compute_next_run greenwich twice_a_week 1000 ≡ some t)
unfolding zone text_eq
compute_next_run-total_example =
    compute_next_run-total greenwich twice_a_week 1000 greenwich-IsCalendar
      (greenwich-KeepsDate 1000) (λ naive. (naive, refl)) refl twice_a_week_valid
