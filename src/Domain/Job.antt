-- ===== src/Domain/Job.antt =====
-- crates/autoflow-domain/src/job.rs. An identifier is a number; the clock is an argument.
pub mod Normal
pub mod Valid
mod Tests
use tidyflow.Domain.PathPolicy.{normalize_path, path_eq, is_path_under_root}
use tidyflow.Domain.Error.{DomainError, validation}
use tidyflow.Domain.Options.{
  TransferOptions, default_options, default_scripts, ScriptsConfig, NotifyConfig, default_notify,
  validate_scripts,
}
use tidyflow.Domain.FileFilter.{FileFilter, default_filter}
use tidyflow.Domain.Watch.{WatchConfig, validate_watch, check_regex}
use tidyflow.Base.Text.{Text, trim, byte_len, msg}
use tidyflow.Base.{
  ℕ, if◌then◌else◌, List, Option, Bool, none, Result, some, is_some_and, false, [], is_empty, ◌&&◌,
  ok, not, bail_if, true, ◌||◌, ltb, ◌>>◌,
}
use tidyflow.Domain.Schedule
use tidyflow.Domain.Schedule.{Chrono, ScheduleConfig, compute_next_run}

pub data JobMode : Type 0 where
  copy move : JobMode

pub data ConflictStrategy : Type 0 where
  skip overwrite rename : ConflictStrategy

pub record Job : Type 0 where
  pub id : ℕ
  pub name : Text
  pub source_path : Text
  pub target_path : Text
  pub mode : JobMode
  pub conflict : ConflictStrategy
  pub filters : FileFilter
  pub options : TransferOptions
  pub schedule : Option ScheduleConfig
  pub watch : Option WatchConfig
  pub scripts : ScriptsConfig
  pub notify : NotifyConfig
  pub enabled : Bool
  pub last_run : Option ℕ
  pub next_run : Option ℕ
  pub include_extensions : List Text
  pub recursive : Option Bool

pub record JobSummary : Type 0 where
  pub id : ℕ
  pub name : Text
  pub source_path : Text
  pub target_path : Text
  pub mode : JobMode
  pub enabled : Bool
  pub last_run : Option ℕ
  pub next_run : Option ℕ
  pub schedule_enabled : Bool
  pub watch_enabled : Bool

-- `Job::new`, with the new identifier.
unfoldable pub new_job : ℕ → Text → Text → Text → Job
new_job id name source_path target_path = record {
  id = id;
  name = name;
  source_path = source_path;
  target_path = target_path;
  mode = copy;
  conflict = skip;
  filters = default_filter;
  options = default_options;
  schedule = none;
  watch = none;
  scripts = default_scripts;
  notify = default_notify;
  enabled = true;
  last_run = none;
  next_run = none;
  include_extensions = [];
  recursive = none;
}

abbrev pub schedule_on : Option ScheduleConfig → Bool
schedule_on = is_some_and λ s. s.enabled

abbrev pub watch_on : Option WatchConfig → Bool
watch_on = is_some_and λ w. w.enabled

-- The legacy fields move into the filters.
adopt_extensions : List Text → FileFilter → FileFilter
adopt_extensions legacy f =
    if is_empty f.include_extensions && not (is_empty legacy)
    then record f { include_extensions = legacy }
    else f

adopt_recursive : Option Bool → FileFilter → FileFilter
adopt_recursive none f = f
adopt_recursive (some r) f = record f { recursive = r }

unfoldable pub stop_schedule : Option ScheduleConfig → Option ScheduleConfig
stop_schedule none = none
stop_schedule (some s) = some (record s { enabled = false })

stop_watch : Option WatchConfig → Option WatchConfig
stop_watch none = none
stop_watch (some w) = some (record w { enabled = false })

unfoldable pub summary : Job → JobSummary
summary j = record {
  id = j.id;
  name = j.name;
  source_path = j.source_path;
  target_path = j.target_path;
  mode = j.mode;
  enabled = j.enabled;
  last_run = j.last_run;
  next_run = j.next_run;
  schedule_enabled = schedule_on j.schedule;
  watch_enabled = watch_on j.watch;
}

module _ (c : Chrono) where
  -- The next run of a schedule that may be missing or off.
  unfoldable pub next_of : Option ScheduleConfig → ℕ → Option ℕ
  next_of none now = none
  next_of (some s) now = if s.enabled then compute_next_run c s now else none

  unfoldable pub normalize : ℕ → Job → Job
  unfolding adopt_extensions adopt_recursive stop_schedule stop_watch next_of
  normalize now j =
      let watch_active = watch_on j.watch in
      let schedule = if watch_active then stop_schedule j.schedule else j.schedule in
      let watch =
        if watch_active
        then j.watch
        else if schedule_on j.schedule
        then stop_watch j.watch
        else j.watch in
      record j {
        filters = adopt_recursive j.recursive (adopt_extensions j.include_extensions j.filters);
        recursive = none;
        include_extensions = [];
        schedule = schedule;
        watch = watch;
        next_run = if watch_active then none else next_of schedule now;
      }

module _ (c : Chrono) (canonicalize regex_error : Text → Option Text) where
  validate_optional_schedule : Option ScheduleConfig → Result DomainError (Unit {0})
  validate_optional_schedule none = ok tt
  validate_optional_schedule (some s) = Schedule.validate c s

  validate_optional_watch : Option WatchConfig → Result DomainError (Unit {0})
  validate_optional_watch none = ok tt
  validate_optional_watch (some w) = validate_watch regex_error w

  unfoldable pub validate : Job → Result DomainError (Unit {0})
  unfolding validate_optional_schedule validate_optional_watch
  validate j =
      let name = trim j.name in
      let source = normalize_path canonicalize j.source_path in
      let target = normalize_path canonicalize j.target_path in
      bail_if (is_empty name || ltb 120 (byte_len name))
        (validation (msg "name must be between 1 and 120 characters"))
      >> bail_if (is_empty (trim j.source_path)) (validation (msg "source_path is required"))
      >> bail_if (is_empty (trim j.target_path)) (validation (msg "target_path is required"))
      >> bail_if (path_eq source target)
          (validation (msg "source_path and target_path must be different"))
      >> bail_if
          (is_path_under_root canonicalize source target
            || is_path_under_root canonicalize target source)
          (validation (msg "source and target must not overlap"))
      >> validate_optional_schedule j.schedule
      >> validate_optional_watch j.watch
      >> check_regex regex_error (msg "invalid name_regex: ") j.filters.name_regex
      >> check_regex regex_error (msg "invalid path_regex: ") j.filters.path_regex
      >> validate_scripts j.scripts
