-- ===== src/App/Execution/Transfer/Tests.antt =====
-- The transfer's theorems at a file whose plain target is taken.
use tidyflow.Domain.Counter.{to_string}
use tidyflow.Base.Search.{first_from}
use tidyflow.App.Execution.Transfer.Targets.{resolve_target-free, resolve_target-taken}
use tidyflow.Domain.Options.{default_options}
use tidyflow.App.Files.Samples.{disk, kind_host, note, taken, data_of}
use tidyflow.App.Execution.Transfer.Preserved.{process_file-keeps}
use tidyflow.App.Execution.Transfer.Verified.{SameHash, process_file-SameHash}
use tidyflow.Base.Text.{codes, msg, text_eq, Text}
use tidyflow.App.Execution.Transfer.{
  resolve_target, target_of, beside, resolve_taken, resolve_renamed, attempt, process_file,
  numbered, is_synced, deliver_unless, deliver, copy_to, verify_copy, make_parent, target_path,
  transfer,
}
use tidyflow.App.Files.{
  Files, exists, FilePath, file, parent, is_file, same_path, strip_prefix, file_stem, dot_extension,
  create_dir_all, copy_file, file_hash, file_name, is_dir, blocked, created, set_node,
}
use tidyflow.Base.{ℕ, some, ◌∷◌, [], ◌≡◌, true, false, ◌≤◌, refl, ok, err, Result}
use tidyflow.Domain.Job.{Job, new_job, rename}
use tidyflow.Domain.Rollback.{copied, AuditStatus}

-- A job that copies from `/in` to `/out` and renames.
abbrev job : Job
job = record (new_job 7 (codes "job") (codes "/in") (codes "/out")) {
  conflict = rename;
  options = record default_options { verify_after_copy = true };
}

abbrev renamed : FilePath
renamed = codes "out" ∷ codes "note (1).txt" ∷ []

finds_renamed :
    resolve_target (codes "out" ∷ []) (codes "note.txt") rename (codes "in" ∷ []) note disk
    ≡ ok (some renamed)
unfolding resolve_target resolve_taken resolve_renamed attempt numbered first_from disk same_path
    text_eq is_file strip_prefix parent file_stem dot_extension to_string
finds_renamed = refl

resolve_target-free_example : exists renamed disk ≡ false
resolve_target-free_example =
    resolve_target-free (codes "out" ∷ []) (codes "note.txt") rename (codes "in" ∷ []) note renamed
      disk (λ e. cc) finds_renamed

-- A disk on which every path is taken.
abbrev full : Files
full p = some (file (data_of 1))

full_refuses :
    resolve_target (codes "out" ∷ []) (codes "note.txt") rename (codes "in" ∷ []) note full
    ≡ err (msg "could not resolve unique target name")
unfolding resolve_target resolve_taken resolve_renamed attempt first_from is_file
full_refuses = refl

resolve_target-taken_example :
    (exists taken full ≡ true)
    × ((i : ℕ)
        → 1 ≤ i
        → i ≤ 999
        → exists (codes "out" ∷ numbered (codes "note.txt") i ∷ []) full ≡ true)
unfolding target_of beside parent is_file
resolve_target-taken_example =
    resolve_target-taken (codes "out" ∷ []) (codes "note.txt") (codes "in" ∷ []) note full
      (msg "could not resolve unique target name") full_refuses

abbrev after : Result Text (FilePath × AuditStatus) × Files
after = process_file kind_host job note (codes "out" ∷ []) (codes "in" ∷ []) disk

copies : after ≡ (ok (renamed, copied), after.1)
unfolding process_file new_job default_options is_synced deliver_unless deliver copy_to verify_copy
    make_parent create_dir_all copy_file file_hash target_path file_name resolve_target
    resolve_taken resolve_renamed attempt numbered first_from disk same_path text_eq is_file is_dir
    strip_prefix parent file_stem dot_extension to_string blocked created set_node transfer
copies = refl

process_file-SameHash_example : SameHash kind_host note renamed after.1
unfolding new_job
process_file-SameHash_example =
    process_file-SameHash kind_host job note (codes "out" ∷ []) (codes "in" ∷ []) renamed disk
      after.1 refl refl copies

process_file-keeps_example : after.1 taken ≡ disk taken
unfolding new_job disk
process_file-keeps_example =
    process_file-keeps kind_host taken job note (codes "out" ∷ []) (codes "in" ∷ []) disk refl
      (λ e. cc) (unfold same_path text_eq in refl)
