-- ===== src/Domain/Job/Tests.antt =====
-- The job's theorems at a job between two of the sample paths.
use tidyflow.Domain.Watch.{default_watch, validate_watch, check_regex}
use tidyflow.Domain.Job.Valid.{normalize-valid, validate-disjoint}
use tidyflow.Base.Text.{
  codes, starts_with, split, text_eq, ends_with_char, trim, byte_len, utf8_width,
}
use tidyflow.Domain.PathPolicy.{is_path_under_root, path_eq, normalize_path}
use tidyflow.Domain.Options.{default_scripts, validate_scripts}
use tidyflow.Domain.PathPolicy.Samples.{canon, canon-IsCanonical}
use tidyflow.Domain.FileFilter.{default_filter}
use tidyflow.Domain.Job.Normal.{IsNormal, normalize-IsNormal}
use tidyflow.Domain.Schedule.{Chrono, local_name, interval}
use tidyflow.Base.{ℕ, none, ◌≡◌, true, ◌%◌, ok, false, some, refl}
use tidyflow.Domain.Schedule
use tidyflow.Domain.Job.{Job, validate, normalize, new_job, watch_on}

-- A calendar that gives no time: the job below has a schedule that runs by interval.
abbrev no_calendar : Chrono
no_calendar = record {
  NaiveDateTime = ℕ;
  Tz = Unit {0};
  and_hms_opt = λ day hour minute. none;
  weekday = λ day. day % 7;
  local = tt;
  utc = tt;
  parse = λ name. none;
  date_naive = λ tz t. t;
  latest = λ tz naive. none;
}

abbrev backup : Job
backup = record (new_job 1 (codes "backup") (codes "/a/b") (codes "/ab")) {
  schedule = some (record { enabled = true; timezone = local_name; rule = interval 15 });
  watch = some (record default_watch { enabled = true });
}

backup_valid : validate no_calendar canon (λ r. none) backup ≡ ok tt
unfolding validate new_job default_filter default_scripts default_watch Schedule.validate
    validate_watch validate_scripts trim byte_len utf8_width normalize_path canon path_eq
    is_path_under_root starts_with ends_with_char split text_eq check_regex
backup_valid = refl

validate-disjoint_example : is_path_under_root canon (codes "/a/b/c") backup.target_path ≡ false
unfolding new_job canon
validate-disjoint_example =
    validate-disjoint no_calendar canon (λ r. none) backup (codes "/a/b/c") (codes "/a/b/c")
      (codes "/a/b") (codes "/ab") canon-IsCanonical refl refl refl backup_valid
      (unfold is_path_under_root canon path_eq starts_with split text_eq ends_with_char in refl)

normalize-valid_example :
    validate no_calendar canon (λ r. none) (normalize no_calendar 500 backup) ≡ ok tt
normalize-valid_example = normalize-valid no_calendar canon (λ r. none) 500 backup backup_valid

normalize-IsNormal_example :
    IsNormal no_calendar 500 (normalize no_calendar 500 backup)
    × (watch_on backup.watch ≡ true → (normalize no_calendar 500 backup).watch ≡ backup.watch)
    × (watch_on backup.watch ≡ false
        → (normalize no_calendar 500 backup).schedule ≡ backup.schedule)
normalize-IsNormal_example = normalize-IsNormal no_calendar 500 backup
