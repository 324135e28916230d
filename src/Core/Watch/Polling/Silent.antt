-- ===== src/Core/Watch/Polling/Silent.antt =====
-- When a round of the poll sends an event.
use tidyflow.App.Files.{FilePath}
use tidyflow.Core.Watch.Service.{NormalizedWatchEvent, blueprint_triggered}
use tidyflow.Core.Watch.Polling.{
  DirSnapshot, WatchTarget, blueprint, blueprint_events, change_events, folder_events,
  is_child_folder, job, job_events, poll_tick, same_snapshot, changed,
}
use tidyflow.Base.{
  ℕ, List, [], ◌∷◌, ◌++◌, ◌≡◌, ◌≢◌, ◌↔◌, Bool, Bool-cases, inl, inr, true, any, arith,
}

folder_events-sent :
    (id : ℕ) (root : FilePath) (entries : DirSnapshot)
    → any (is_child_folder root) entries ≡ true
    → folder_events id root entries ≢ []
unfolding folder_events
folder_events-sent id root [] h bad = ground (arith, h)
folder_events-sent id root (e ∷ rest) h bad = elim (Bool-cases (is_child_folder root e)) [
  | inl c ↦ ground (arith, c, bad)
  | inr c ↦ folder_events-sent id root rest (ground (arith, c, h)) (ground (arith, c, bad))
]

sent_last : (events : List NormalizedWatchEvent) (e : NormalizedWatchEvent) → events ++ e ∷ [] ≢ []
sent_last [] e bad = ground (arith, bad)
sent_last (d ∷ events) e bad = ground (arith, bad)

blueprint_events-sent :
    (id : ℕ) (root : FilePath) (auto_correct : Bool) (entries : DirSnapshot)
    → blueprint_events id root auto_correct entries ≢ []
unfolding blueprint_events
blueprint_events-sent id root auto_correct entries bad =
    let f = folder_events-sent id root entries in
    let l = sent_last (folder_events id root entries) (blueprint_triggered id) in
    ground (arith, f, l, bad)

change_events-sent :
    (target : WatchTarget) (root : FilePath) (auto_correct : Bool) (entries : DirSnapshot)
    → change_events target root auto_correct entries ≢ []
unfolding change_events job_events
change_events-sent (job id) root auto_correct entries bad = ground (arith, bad)
change_events-sent (blueprint id) root auto_correct entries bad =
    blueprint_events-sent id root auto_correct entries bad

-- A round of the poll sends an event if the snapshot differs from the last one, and only then.
pub poll_tick-silent :
    (target : WatchTarget) (root : FilePath) (auto_correct : Bool) (snapshot current : DirSnapshot)
    → ((poll_tick target root auto_correct snapshot current ≡ [])
        ↔ (same_snapshot snapshot current ≡ true))
unfolding poll_tick
poll_tick-silent target root auto_correct snapshot current =
    let s = change_events-sent target root auto_correct (changed snapshot current) in
    elim (Bool-cases (same_snapshot snapshot current)) [
      | inl e ↦ ground (arith, e)
      | inr e ↦ (λ h. absurd (s (ground (arith, e, h))), λ h. ground (arith, e, h))
    ]
