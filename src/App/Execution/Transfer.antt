-- ===== src/App/Execution/Transfer.antt =====
-- `process_file`, `verify_copy` and `resolve_target`.
pub mod Targets
pub mod Outcome
pub mod Preserved
pub mod Verified
mod Tests
use tidyflow.Domain.Counter.{to_string}
use tidyflow.Base.Search.{first_from}
use tidyflow.Base.Text.{Text, codes, msg}
use tidyflow.App.Files.{
  FilePath, Host, Files, copy_file, rename_path, file_hash, file_stem, remove_file, file_name,
  parent, is_file, create_dir_all, exists, is_dir, files_equal, dot_extension, remove_dir_all,
  strip_prefix,
}
use tidyflow.Base.{
  ℕ, some, Option, ok, Bool, ◌++◌, err, false, if◌then◌else◌, true, none, Result, ◌∷◌, ◌&&◌, not,
  ◌==◌, [], ◌≡◌, Result-cases, inl, arith, inr,
}
use tidyflow.Domain.Job.{Job, JobMode, copy, move, ConflictStrategy, overwrite, rename, skip}
use tidyflow.Domain.Job
use tidyflow.Domain.Rollback.{AuditStatus, copied, moved, ignored}

-- An operation on the files that may fail; what it did before it failed stays done.
abbrev pub M : Type 0 → Type 0
M A = Files → Result Text A × Files

infixl 5 ◌>>=◌ ◌>>◌
abbrev pub ◌>>=◌ : {A B : Type 0} → M A → (A → M B) → M B
◌>>=◌ m f fs = let r = m fs in elim r.0 [ ok a ↦ f a r.1 | err e ↦ (err e, r.1) ]

abbrev pub ◌>>◌ : {B : Type 0} → M (Unit {0}) → M B → M B
m >> k = m >>= λ _. k

abbrev pub return : {A : Type 0} → A → M A
return a fs = (ok a, fs)

abbrev pub fail : {A : Type 0} → Text → M A
fail e fs = (err e, fs)

abbrev pub lift : {A : Type 0} → (Files → Result Text A) → M A
lift f fs = (f fs, fs)

-- The branch is chosen before it is run.
abbrev pub when : Bool → M (Unit {0}) → M (Unit {0})
when true m = m
when false m = return tt

abbrev pub require : {A : Type 0} → Option A → Text → M A
require none e = fail e
require (some a) e = return a

-- Where a file of the source goes if nothing is in the way.
pub target_of : FilePath → FilePath → Bool → Text → FilePath → FilePath
target_of source_root source root_is_file name target_dir =
    if root_is_file
    then target_dir ++ name ∷ []
    else target_dir
      ++ elim (strip_prefix source_root source) [ none ↦ name ∷ [] | some rest ↦ rest ]

-- The same, before it is known that the source has a name.
target_path : FilePath → FilePath → Bool → Option Text → FilePath → Result Text FilePath
target_path source_root source root_is_file (some name) target_dir =
    ok (target_of source_root source root_is_file name target_dir)
target_path source_root source true none target_dir = err (msg "invalid file name")
target_path source_root source false none target_dir =
    ok (elim (strip_prefix source_root source) [ none ↦ source | some rest ↦ target_dir ++ rest ])

-- The name of the `i`-th attempt beside a taken name: `stem (i).ext`.
unfoldable pub numbered : Text → ℕ → Text
numbered name i =
    file_stem name ++ (codes " (" ++ (to_string i ++ (codes ")" ++ dot_extension name)))

pub beside : FilePath → FilePath → FilePath
beside target_dir candidate = elim (parent candidate) [ none ↦ target_dir | some d ↦ d ]

-- One attempt of the loop.
unfoldable pub attempt : FilePath → Text → Files → ℕ → Option FilePath
attempt dir name fs i =
    let candidate = dir ++ numbered name i ∷ [] in
    if exists candidate fs then none else some candidate

-- `for i in 1..1000`.
unfoldable pub resolve_renamed : FilePath → Text → Files → Result Text (Option FilePath)
resolve_renamed dir name fs = elim (first_from (attempt dir name fs) 999 1) [
  | none ↦ err (msg "could not resolve unique target name")
  | some p ↦ ok (some p)
]

resolve_taken :
    ConflictStrategy → FilePath → Text → FilePath → Files → Result Text (Option FilePath)
unfolding beside
resolve_taken skip target_dir name candidate fs = ok none
resolve_taken overwrite target_dir name candidate fs = ok (some candidate)
resolve_taken rename target_dir name candidate fs =
    resolve_renamed (beside target_dir candidate) name fs

unfoldable pub resolve_target :
    FilePath → Text → ConflictStrategy → FilePath → FilePath → Files → Result Text (Option FilePath)
unfolding target_of resolve_taken
resolve_target target_dir name conflict source_root source fs =
    let candidate = target_of source_root source (is_file (fs source_root)) name target_dir in
    if not (exists candidate fs)
    then ok (some candidate)
    else resolve_taken conflict target_dir name candidate fs

module _ (host : Host) where
  pub verify_copy : FilePath → FilePath → M (Unit {0})
  verify_copy source target = do
    source_hash ← lift (file_hash host source)
    target_hash ← lift (file_hash host target)
    when (not (source_hash == target_hash)) (fail (msg "integrity check failed"))

  pub copy_to : Job → FilePath → FilePath → M (FilePath × AuditStatus)
  unfolding verify_copy
  copy_to job source resolved = do
    copy_file host source resolved
    when job.options.verify_after_copy (verify_copy source resolved)
    return (resolved, copied)

  -- The hash of the source, taken before a move if it is to be verified.
  hash_before : Bool → FilePath → M (Option ℕ)
  hash_before true source = do h ← lift (file_hash host source); return (some h)
  hash_before false source = return none

  is_overwrite : ConflictStrategy → Bool
  is_overwrite skip = false
  is_overwrite overwrite = true
  is_overwrite rename = false

  clear_target : ConflictStrategy → FilePath → M (Unit {0})
  unfolding is_overwrite
  clear_target conflict resolved fs =
      if exists resolved fs && is_overwrite conflict
      then if is_dir (fs resolved)
        then remove_dir_all host resolved fs
        else remove_file host resolved fs
      else return tt fs

  check_hash : Option ℕ → FilePath → M (Unit {0}) → M (Unit {0})
  check_hash none resolved on_mismatch = return tt
  check_hash (some source_hash) resolved on_mismatch = do
    target_hash ← lift (file_hash host resolved)
    when (not (source_hash == target_hash))
        (do on_mismatch; fail (msg "integrity check failed after move"))

  -- `let _ = remove_file(..)`.
  discard_file : FilePath → M (Unit {0})
  discard_file p fs = (ok tt, (remove_file host p fs).1)

  -- After `rename`, which may have failed: then the file is copied and the source removed.
  finish_move : Option ℕ → FilePath → FilePath → Result Text (Unit {0}) → M (Unit {0})
  unfolding check_hash discard_file
  finish_move hash source resolved (ok u) = check_hash hash resolved (return tt)
  finish_move hash source resolved (err e) = do
    copy_file host source resolved
    check_hash hash resolved (discard_file resolved)
    remove_file host source

  rename_or_copy : Option ℕ → FilePath → FilePath → M (Unit {0})
  unfolding finish_move
  rename_or_copy hash source resolved fs =
      let r = rename_path host source resolved fs in finish_move hash source resolved r.0 r.1

  move_to : Job → FilePath → FilePath → M (FilePath × AuditStatus)
  unfolding hash_before clear_target rename_or_copy
  move_to job source resolved = do
    hash ← hash_before job.options.verify_after_copy source
    clear_target job.conflict resolved
    rename_or_copy hash source resolved
    return (resolved, moved)

  transfer : JobMode → Job → FilePath → FilePath → M (FilePath × AuditStatus)
  unfolding copy_to move_to
  transfer copy job source resolved = copy_to job source resolved
  transfer move job source resolved = move_to job source resolved

  make_parent : FilePath → M (Unit {0})
  make_parent resolved = elim (parent resolved) [
    | none ↦ return tt
    | some d ↦ create_dir_all host d
  ]

  deliver : Job → FilePath → FilePath → Option FilePath → M (FilePath × AuditStatus)
  unfolding make_parent transfer
  deliver job source target none = return (target, ignored)
  deliver job source target (some resolved) = do
    make_parent resolved
    transfer job.mode job source resolved

  -- `smart_sync && target_path.exists() && files_equal(..)?`.
  pub is_synced : Job → FilePath → FilePath → M Bool
  is_synced job source target fs =
      if job.options.smart_sync && exists target fs
      then (files_equal host source target job.options.strict_hash_sync fs, fs)
      else (ok false, fs)

  deliver_unless :
      Bool
      → Job
      → FilePath
      → Option Text
      → FilePath
      → FilePath
      → FilePath
      → M (FilePath × AuditStatus)
  unfolding deliver
  deliver_unless true job source name target_dir source_root target = return (target, ignored)
  deliver_unless false job source name target_dir source_root target = do
    given ← require name (msg "invalid file name")
    resolved ← lift (resolve_target target_dir given job.conflict source_root source)
    deliver job source target resolved

  unfoldable pub process_file : Job → FilePath → FilePath → FilePath → M (FilePath × AuditStatus)
  unfolding target_path deliver_unless is_synced
  process_file job source target_dir source_root = do
    let name = file_name source
    target ← lift (λ fs. target_path source_root source (is_file (fs source_root)) name target_dir)
    synced ← is_synced job source target
    deliver_unless synced job source name target_dir source_root target

-- Inversion of a successful step.
pub >>=-eq-ok :
    {A B : Type 0} (m : M A) (f : A → M B) (fs fs' : Files) (b : B)
    → (m >>= f) fs ≡ (ok b, fs')
    → (a : A) × (fs1 : Files) × (m fs ≡ (ok a, fs1)) × (f a fs1 ≡ (ok b, fs'))
>>=-eq-ok m f fs fs' b e = elim (Result-cases (m fs).0) [
  | inl (a, ran) ↦ (a, (m fs).1, ground (arith, ran), ground (arith, ran))
  | inr (x, bad) ↦ ground (arith, bad)
]
