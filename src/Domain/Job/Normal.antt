-- ===== src/Domain/Job/Normal.antt =====
-- About the normalisation of a job.
use tidyflow.Domain.Schedule.{Chrono}
use tidyflow.Domain.Job.{normalize, Job, schedule_on, watch_on, next_of}
use tidyflow.Base.{ℕ, ◌≡◌, ◌&&◌, arith, true, false, [], none}

-- At most one trigger is on, the next run is that of the schedule, and the legacy fields are empty.
pub record IsNormal (c : Chrono) (now : ℕ) (j : Job) : Type 0 where
  pub one_trigger : (schedule_on j.schedule && watch_on j.watch) ≡ false
  pub next_of_schedule : j.next_run ≡ next_of c j.schedule now
  pub no_extensions : j.include_extensions ≡ []
  pub no_recursive : j.recursive ≡ none

-- A normalised job is normal; a watch that was on stays as it was, and wins over the schedule; a
-- schedule that was on stays as it was unless the watch was on too.
pub normalize-IsNormal :
    (c : Chrono) (now : ℕ) (j : Job)
    → IsNormal c now (normalize c now j)
      × (watch_on j.watch ≡ true → (normalize c now j).watch ≡ j.watch)
      × (watch_on j.watch ≡ false → (normalize c now j).schedule ≡ j.schedule)
unfolding normalize
normalize-IsNormal c now j = (ground arith, ground arith, ground arith)

-- Normalising once more at the same time changes nothing.
pub normalize_idem :
    (c : Chrono) (now : ℕ) (j : Job) → normalize c now (normalize c now j) ≡ normalize c now j
unfolding normalize
normalize_idem c now j = ground arith
