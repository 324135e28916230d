-- ===== src/Domain/Watch.antt =====
-- crates/autoflow-domain/src/watch.rs and naming.rs.
-- The regex library is a parameter: the message of its refusal, or nothing.
use tidyflow.Domain.Error.{DomainError, validation}
use tidyflow.Base.Text.{Text, msg}
use tidyflow.Domain.Tokenizer.{TemplatePipeline}
use tidyflow.Base.{
  ℕ, false, Result, Option, Bool, none, ◌∷◌, List, true, if◌then◌else◌, [], bail_if, some, ok, not,
  err, ltb, ◌||◌, ◌==◌, ◌>>◌, ◌++◌, is_empty,
}

pub record NamingPattern : Type 0 where
  pub regex : Option Text
  pub template_override : Option TemplatePipeline

pub data WatchDetectionMode : Type 0 where
  realtime : WatchDetectionMode
  polling : (interval_secs : ℕ) → WatchDetectionMode
  hybrid : (poll_interval_secs : ℕ) → WatchDetectionMode

pub data WatchEventKind : Type 0 where
  create modify remove rename : WatchEventKind

pub record WatchConfig : Type 0 where
  pub enabled : Bool
  pub settle_seconds : ℕ
  pub detection : WatchDetectionMode
  pub events : List WatchEventKind
  pub auto_correct : Bool
  pub naming_pattern : Option NamingPattern

unfoldable pub default_watch : WatchConfig
default_watch = record {
  enabled = false;
  settle_seconds = 2;
  detection = realtime;
  events = create ∷ [];
  auto_correct = false;
  naming_pattern = none;
}

validate_interval : ℕ → Result DomainError (Unit {0})
validate_interval secs =
    bail_if (ltb secs 5 || ltb 3600 secs)
      (validation (msg "watch polling interval must be between 5 and 3600 seconds"))

validate_detection : WatchDetectionMode → Result DomainError (Unit {0})
unfolding validate_interval
validate_detection realtime = ok tt
validate_detection (polling secs) = validate_interval secs
validate_detection (hybrid secs) = validate_interval secs

module _ (regex_error : Text → Option Text) where
  -- The checks of a regex in a configuration, with the prefix of the message.
  unfoldable pub check_regex : Text → Option Text → Result DomainError (Unit {0})
  check_regex label none = ok tt
  check_regex label (some pattern) = elim (regex_error pattern) [
    | none ↦ ok tt
    | some e ↦ err (validation (label ++ e))
  ]

  unfoldable pub validate_pattern : Option NamingPattern → Result DomainError (Unit {0})
  unfolding check_regex
  validate_pattern none = ok tt
  validate_pattern (some p) = check_regex (msg "invalid naming regex: ") p.regex

  unfoldable pub validate_watch : WatchConfig → Result DomainError (Unit {0})
  unfolding validate_detection validate_pattern
  validate_watch w =
      if not w.enabled
      then ok tt
      else bail_if (w.settle_seconds == 0 || ltb 60 w.settle_seconds)
          (validation (msg "watch settle_seconds must be between 1 and 60"))
        >> bail_if (is_empty w.events)
            (validation (msg "watch must include at least one event kind"))
        >> validate_pattern w.naming_pattern
        >> validate_detection w.detection

unfoldable pub poll_interval_secs : WatchConfig → Option ℕ
poll_interval_secs w = elim w.detection [
  | realtime ↦ none
  | polling secs ↦ some secs
  | hybrid secs ↦ some secs
]

unfoldable pub uses_realtime : WatchConfig → Bool
uses_realtime w = elim w.detection [ realtime ↦ true | polling secs ↦ false | hybrid secs ↦ true ]

unfoldable pub uses_polling : WatchConfig → Bool
uses_polling w = elim w.detection [ realtime ↦ false | polling secs ↦ true | hybrid secs ↦ true ]
