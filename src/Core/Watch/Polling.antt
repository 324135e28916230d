-- ===== src/Core/Watch/Polling.antt =====
-- `start_polling` and the callbacks of the debouncer: which changes a watcher reports. The snapshots and the
-- debounced events are the file system's, in the order in which their maps and lists give them.
pub mod Realtime
mod Silent
use tidyflow.App.Files.{FilePath, display, file_name, parent, same_path, strip_prefix}
use tidyflow.Core.Watch.Service.{
  NormalizedWatchEvent, blueprint_triggered, folder_created, job_triggered,
}
use tidyflow.Domain.Watch.{WatchEventKind}
use tidyflow.Domain.Watch
use tidyflow.Base.Text.{Text}
use tidyflow.Base.{
  ℕ, List, [], ◌∷◌, ◌++◌, Bool, true, false, not, ◌&&◌, ◌||◌, ◌==◌, if◌then◌else◌, Option, none,
  some, all, any, length, is_some, is_some_and,
}

pub data WatchTarget : Type 0 where
  job : (id : ℕ) → WatchTarget
  blueprint : (id : ℕ) → WatchTarget

-- `(u64, u64, bool)`: the size, the second of the last change, and whether it is a directory.
pub record Signature : Type 0 where
  pub size : ℕ
  pub modified : ℕ
  pub is_dir : Bool

abbrev pub DirSnapshot : Type 0
DirSnapshot = List (FilePath × Signature)

same_bool : Bool → Bool → Bool
same_bool true b = b
same_bool false b = not b

unfoldable pub same_signature : Signature → Signature → Bool
unfolding same_bool
same_signature a b = a.size == b.size && a.modified == b.modified && same_bool a.is_dir b.is_dir

unfoldable pub get_signature : FilePath → DirSnapshot → Option Signature
get_signature path [] = none
get_signature path ((q, sig) ∷ rest) =
    let found = get_signature path rest in if same_path q path then some sig else found

-- `snapshot.get(path) == Some(signature)`.
has_entry : DirSnapshot → FilePath × Signature → Bool
unfolding get_signature same_signature
has_entry snapshot (path, sig) = is_some_and (same_signature sig) (get_signature path snapshot)

-- Equality of the maps.
unfoldable pub same_snapshot : DirSnapshot → DirSnapshot → Bool
unfolding has_entry
same_snapshot a b = length a == length b && all (has_entry b) a

unfoldable pub filter_entries : (FilePath × Signature → Bool) → DirSnapshot → DirSnapshot
filter_entries p [] = []
filter_entries p (e ∷ rest) = let kept = filter_entries p rest in if p e then e ∷ kept else kept

unfoldable pub changed : DirSnapshot → DirSnapshot → DirSnapshot
unfolding filter_entries has_entry
changed snapshot current = filter_entries (λ e. not (has_entry snapshot e)) current

-- `path.file_name()`, or the empty name.
unfoldable pub name_of : FilePath → Text
name_of path = elim (file_name path) [ none ↦ [] | some name ↦ name ]

-- A directory right under the root.
unfoldable pub is_child_folder : FilePath → FilePath × Signature → Bool
is_child_folder root (path, sig) = sig.is_dir && is_some_and (same_path root) (parent path)

unfoldable pub folder_events : ℕ → FilePath → DirSnapshot → List NormalizedWatchEvent
unfolding name_of
folder_events id root [] = []
folder_events id root ((path, sig) ∷ rest) =
    let others = folder_events id root rest in
    if is_child_folder root (path, sig)
    then folder_created id (display path) (name_of path) ∷ others
    else others

job_events : ℕ → List NormalizedWatchEvent
job_events id = job_triggered id ∷ []

blueprint_events : ℕ → FilePath → Bool → DirSnapshot → List NormalizedWatchEvent
unfolding folder_events
blueprint_events id root auto_correct entries =
    let folders = if auto_correct then folder_events id root entries else [] in
    let sent_folder_event = auto_correct && any (is_child_folder root) entries in
    let other_change = auto_correct && any (λ e. not (is_child_folder root e)) entries in
    if not sent_folder_event || other_change
    then folders ++ blueprint_triggered id ∷ []
    else folders

change_events : WatchTarget → FilePath → Bool → DirSnapshot → List NormalizedWatchEvent
unfolding job_events blueprint_events
change_events (job id) root auto_correct entries = job_events id
change_events (blueprint id) root auto_correct entries =
    blueprint_events id root auto_correct entries

-- A round of the poll: the events that it sends. The snapshot taken is the next round's.
unfoldable pub poll_tick :
    WatchTarget
    → FilePath
    → (auto_correct : Bool) → DirSnapshot
    → DirSnapshot
    → List NormalizedWatchEvent
unfolding same_snapshot changed change_events
poll_tick target root auto_correct snapshot current =
    if not (same_snapshot snapshot current)
    then change_events target root auto_correct (changed snapshot current)
    else []

unfoldable pub poll_rounds :
    WatchTarget → FilePath → Bool → DirSnapshot → List DirSnapshot → List NormalizedWatchEvent
unfolding poll_tick
poll_rounds target root auto_correct snapshot [] = []
poll_rounds target root auto_correct snapshot (current ∷ rest) =
    poll_tick target root auto_correct snapshot current
    ++ poll_rounds target root auto_correct current rest
