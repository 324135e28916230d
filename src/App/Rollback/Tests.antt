-- ===== src/App/Rollback/Tests.antt =====
-- The rollback's theorems at a manifest with one moved and one copied file.
use tidyflow.App.Rollback.Store.{rollback_job-once}
use tidyflow.Base.Text.{codes}
use tidyflow.App.Files.Samples.{disk, note, kind_host, taken}
use tidyflow.App.Rollback.{Manifest, World, Item, rollback_job, latest_for}
use tidyflow.Base.{ℕ, none, ◌∷◌, ◌≡◌, ok, [], some, false, ◌+◌, length, refl, ◌==◌}
use tidyflow.Domain.Rollback.{moved, copied, RollbackResult}
use tidyflow.Domain.Job.{move, copy}

-- The copy was changed since: its hash is no longer 9.
abbrev changed : Item
changed = record {
  source_path = note;
  target_path = taken;
  mode = copy;
  status = copied;
  target_hash = some 9;
  is_directory = false;
}

abbrev done : Item
done = record {
  source_path = codes "old" ∷ [];
  target_path = note;
  mode = move;
  status = moved;
  target_hash = some 1;
  is_directory = false;
}

abbrev manifest : Manifest
manifest = record {
  id = 50;
  job_id = 7;
  blueprint_id = none;
  execution_id = 100;
  created_at = 3;
  rolled_back_at = none;
  items = done ∷ changed ∷ [];
}

abbrev world : World
world = record {
  files = disk;
  rows = record { payload = manifest; rolled_back_at = none } ∷ [];
  audit = [];
}

rollback_job-once_example :
    (r : RollbackResult) × ((rollback_job kind_host 7 900 world).0 ≡ ok r)
    × (r.reverted_count + r.skipped_count ≡ 2)
    × (length (rollback_job kind_host 7 900 world).1.audit ≡ 1)
    × ((other : ℕ) (m' : Manifest)
        → latest_for other (rollback_job kind_host 7 900 world).1.rows ≡ some m'
        → (m'.id == 50) ≡ false)
rollback_job-once_example =
    rollback_job-once kind_host 7 900 world manifest (unfold latest_for in refl) refl
