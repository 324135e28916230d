-- ===== src/Core/Watch/Polling/Realtime.antt =====
-- `matches_watch_event` and the callbacks of the two debouncers. Of the kinds of `notify` those stand here
-- that the code tells apart.
use tidyflow.App.Files.{FilePath, display, strip_prefix}
use tidyflow.Core.Watch.Polling.{name_of}
use tidyflow.Core.Watch.Service.{
  NormalizedWatchEvent, blueprint_triggered, folder_created, job_triggered,
}
use tidyflow.Domain.Watch
use tidyflow.Domain.Watch.{WatchEventKind}
use tidyflow.Base.{
  ℕ, List, [], ◌∷◌, Bool, true, false, if◌then◌else◌, Option, none, some, any, is_some, is_some_and,
}

pub data EventKind : Type 0 where
  create_folder create_other modify_name modify_other remove_any other_kind : EventKind

pub record DebouncedEvent : Type 0 where
  pub kind : EventKind
  pub paths : List FilePath

same_kind : WatchEventKind → WatchEventKind → Bool
same_kind Watch.create Watch.create = true
same_kind Watch.modify Watch.modify = true
same_kind Watch.remove Watch.remove = true
same_kind Watch.rename Watch.rename = true
same_kind _ _ = false

mapped_kind : EventKind → Option WatchEventKind
mapped_kind create_folder = some Watch.create
mapped_kind create_other = some Watch.create
mapped_kind modify_name = some Watch.rename
mapped_kind modify_other = some Watch.modify
mapped_kind remove_any = some Watch.remove
mapped_kind other_kind = none

unfoldable pub matches_watch_event : EventKind → List WatchEventKind → Bool
unfolding same_kind mapped_kind
matches_watch_event kind allowed =
    is_some_and (λ event. any (same_kind event) allowed) (mapped_kind kind)

module _ (allowed : List WatchEventKind) (id : ℕ) where
  -- The callback of `start_realtime_job`.
  unfoldable pub on_job_events : List DebouncedEvent → List NormalizedWatchEvent
  unfolding matches_watch_event
  on_job_events [] = []
  on_job_events (e ∷ rest) =
      let others = on_job_events rest in
      if matches_watch_event e.kind allowed then job_triggered id ∷ [] else others

  module _ (root : FilePath) where
    -- The first path under the root is reported.
    first_folder : List FilePath → List NormalizedWatchEvent
    first_folder [] = []
    first_folder (path ∷ rest) =
        let others = first_folder rest in
        if is_some (strip_prefix root path)
        then folder_created id (display path) (name_of path) ∷ []
        else others

    on_matched : Bool → EventKind → List FilePath → List NormalizedWatchEvent
    unfolding first_folder name_of
    on_matched true create_folder paths = first_folder paths
    on_matched true _ paths = blueprint_triggered id ∷ []
    on_matched false kind paths = blueprint_triggered id ∷ []

    -- The callback of `start_realtime_blueprint`.
    unfoldable pub on_blueprint_events :
        (auto_correct : Bool) → List DebouncedEvent → List NormalizedWatchEvent
    unfolding matches_watch_event on_matched
    on_blueprint_events auto_correct [] = []
    on_blueprint_events auto_correct (e ∷ rest) =
        let others = on_blueprint_events auto_correct rest in
        if matches_watch_event e.kind allowed
        then on_matched auto_correct e.kind e.paths
        else others
