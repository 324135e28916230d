-- ===== src/Domain/Job/Valid.antt =====
-- About the validation of a job.
use tidyflow.Domain.PathPolicy.Roots.{IsCanonical, is_path_under_root-overlap}
use tidyflow.Domain.Watch.{validate_watch, WatchConfig}
use tidyflow.Domain.PathPolicy.{is_path_under_root, normalize_path}
use tidyflow.Domain.Job.{
  adopt_recursive, validate_optional_schedule, validate_optional_watch, validate, Job,
  adopt_extensions, stop_schedule, normalize, stop_watch,
}
use tidyflow.Base.Text.{Text}
use tidyflow.Base.{ℕ, Option, ◌≡◌, some, ok, arith, none, true, refl, false, Bool-cases, inr, inl}
use tidyflow.Domain.Schedule
use tidyflow.Domain.Schedule.{Chrono, ScheduleConfig}

module _ (c : Chrono) (canonicalize regex_error : Text → Option Text) where
  not_under :
      (j : Job)
      → validate c canonicalize regex_error j ≡ ok tt
      → let s = normalize_path canonicalize j.source_path in
        let t = normalize_path canonicalize j.target_path in
        (is_path_under_root canonicalize s t ≡ false)
        × (is_path_under_root canonicalize t s ≡ false)
  unfolding validate
  not_under j v = (ground arith, ground arith)

  under-normalize :
      IsCanonical canonicalize
      → (p q a b : Text) → canonicalize p ≡ some a
      → canonicalize q ≡ some b
      → is_path_under_root canonicalize
          (normalize_path canonicalize p)
          (normalize_path canonicalize q)
        ≡ is_path_under_root canonicalize p q
  unfolding is_path_under_root
  under-normalize can p q a b at_p at_q =
      ground (arith, at_p, at_q, can.canonical_idem p a at_p, can.canonical_idem q b at_q)

  -- No file is under both the source and the target of a valid job whose two directories exist.
  pub validate-disjoint :
      (j : Job) (p a s t : Text)
      → IsCanonical canonicalize
      → canonicalize p ≡ some a
      → canonicalize j.source_path ≡ some s
      → canonicalize j.target_path ≡ some t
      → validate c canonicalize regex_error j ≡ ok tt
      → is_path_under_root canonicalize p j.source_path ≡ true
      → is_path_under_root canonicalize p j.target_path ≡ false
  validate-disjoint j p a s t can at_p at_s at_t v in_source =
      elim (Bool-cases (is_path_under_root canonicalize p j.target_path)) [
        | inr outside ↦ outside
        | inl in_target ↦
            let (not_s, not_t) = not_under j v in
            ground (
              arith,
              not_s,
              not_t,
              under-normalize can j.source_path j.target_path s t at_s at_t,
              under-normalize can j.target_path j.source_path t s at_t at_s,
              is_path_under_root-overlap canonicalize can p j.source_path j.target_path a s t at_p
                  at_s at_t in_source in_target,
            )
      ]

  stop_schedule-valid :
      (s : Option ScheduleConfig)
      → validate_optional_schedule c canonicalize regex_error (stop_schedule s) ≡ ok tt
  unfolding validate_optional_schedule Schedule.validate stop_schedule
  stop_schedule-valid none = refl
  stop_schedule-valid (some s) = refl

  stop_watch-valid :
      (w : Option WatchConfig)
      → validate_optional_watch c canonicalize regex_error (stop_watch w) ≡ ok tt
  unfolding validate_optional_watch validate_watch stop_watch
  stop_watch-valid none = refl
  stop_watch-valid (some w) = refl

  adopt-regex :
      (j : Job)
      → let f = adopt_recursive j.recursive (adopt_extensions j.include_extensions j.filters) in
        (f.name_regex ≡ j.filters.name_regex) × (f.path_regex ≡ j.filters.path_regex)
  unfolding adopt_recursive adopt_extensions
  adopt-regex j = (ground arith, ground arith)

  -- Normalising a valid job gives a valid job.
  pub normalize-valid :
      (now : ℕ) (j : Job)
      → validate c canonicalize regex_error j ≡ ok tt
      → validate c canonicalize regex_error (normalize c now j) ≡ ok tt
  unfolding validate normalize
  normalize-valid now j v =
      ground (arith, stop_schedule-valid j.schedule, stop_watch-valid j.watch, adopt-regex j)

  -- The schedule of a valid job is valid.
  pub validate-schedule :
      (j : Job) (s : ScheduleConfig)
      → validate c canonicalize regex_error j ≡ ok tt
      → j.schedule ≡ some s
      → Schedule.validate c s ≡ ok tt
  unfolding validate validate_optional_schedule
  validate-schedule j s v e = ground (arith, e)
