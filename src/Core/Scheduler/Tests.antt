-- ===== src/Core/Scheduler/Tests.antt =====
-- The scheduler's theorem at one job that is due.
use tidyflow.Domain.Watch.{check_regex, validate_pattern, validate_watch}
use tidyflow.Domain.Options.{default_notify, default_options, default_scripts, validate_scripts}
use tidyflow.Domain.FileFilter.{default_filter}
use tidyflow.Core.Queue.Calls.{enqueue}
use tidyflow.Domain.PathPolicy.{path_eq, normalize_path, is_path_under_root}
use tidyflow.Domain.Schedule.{validate as validate_schedule, compute_next_run}
use tidyflow.Base.Map.{get as map_get, has_value, insert, remove}
use tidyflow.Domain.Schedule.Samples.{
  greenwich, twice_a_week, greenwich-IsCalendar, greenwich-KeepsDate,
}
use tidyflow.Core.Scheduler.Advance.{visit-advances}
use tidyflow.Core.Scheduler.{
  get, Outside, World, visit, find_job, due, save, advance, note_missed, noted, record_missed,
  reschedule, start_due, without,
}
use tidyflow.Core.Queue.State.{init}
use tidyflow.Base.Text.{
  codes, trim, byte_len, utf8_width, starts_with, text_eq, split, ends_with_char, is_whitespace,
  trim_by, trim_start_by,
}
use tidyflow.Domain.Job.{validate as validate_job, Job, new_job, summary, normalize, next_of}
use tidyflow.Base.{ℕ, some, none, ◌≡◌, ◌≤◌, ◌+◌, ◌∷◌, [], length, refl, arith, ap, ◌≢◌, sym, ◌∙◌}

abbrev outside : Outside
outside = record {
  chrono = greenwich;
  canonicalize = λ p. some p;
  regex_error = λ p. none;
  list_error = none;
  record_error = λ id. none;
  get_error = λ id. none;
  save_error = λ id. none;
  clock = λ n. 1000 + n;
  new_id = λ n. 100 + n;
}

abbrev job : Job
job = record (new_job 7 (codes "job") (codes "/in") (codes "/out")) {
  schedule = some twice_a_week;
  next_run = some 500;
}

abbrev world : World
world = record { jobs = job ∷ []; missed = []; queue = init }

enqueues_one : length (visit outside 1000 1 (summary job) world).1.queue.channel ≡ 1
unfolding visit due summary new_job get find_job save validate_job trim advance normalize byte_len
    utf8_width path_eq starts_with normalize_path text_eq split map_get has_value insert remove
    ends_with_char is_whitespace trim_by trim_start_by enqueue note_missed noted record_missed
    reschedule start_due without default_filter next_of default_notify default_options
    default_scripts validate_scripts is_path_under_root compute_next_run validate_schedule
    check_regex validate_pattern validate_watch init
enqueues_one = refl

changed : (visit outside 1000 1 (summary job) world).1.queue ≢ world.queue
unfolding init
changed same =
    let one : 0 ≡ 1 = sym (ap (λ q. length q.channel) same) ∙ enqueues_one in omega (arith, one)

visit-advances_example :
    (j : Job) × (find_job 7 (visit outside 1000 1 (summary job) world).1.jobs ≡ some j)
    × ((later : ℕ) → later ≤ 1002 → due later (summary j) ≡ none)
unfolding summary new_job
visit-advances_example =
    visit-advances outside 1000 1 (summary job) world (λ tz. greenwich-IsCalendar)
      (λ job got s has. greenwich-KeepsDate 1002) changed
