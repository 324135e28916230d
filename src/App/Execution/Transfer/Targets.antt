-- ===== src/App/Execution/Transfer/Targets.antt =====
-- About the target that `resolve_target` chooses.
use tidyflow.Base.Search.{first_from, first_from-eq-some, first_from-eq-none}
use tidyflow.Base.Text.{Text}
use tidyflow.App.Files.{FilePath, Files, exists, is_file}
use tidyflow.App.Execution.Transfer.{
  resolve_target, attempt, resolve_renamed, resolve_taken, target_of, numbered, beside,
}
use tidyflow.Base.{
  ℕ, ◌≢◌, ◌≡◌, ok, some, false, arith, none, Option-cases, err, ◌++◌, ◌∷◌, true, inl, [], refl, ◌≤◌,
  inr, ◌+◌, ◌-◌,
}
use tidyflow.Domain.Job.{ConflictStrategy, skip, overwrite, rename}

attempt-eq-some :
    (dir : FilePath) (name : Text) (fs : Files) (i : ℕ) (p : FilePath)
    → attempt dir name fs i ≡ some p
    → exists p fs ≡ false
unfolding attempt
attempt-eq-some dir name fs i p e = ground arith

attempt-eq-none :
    (dir : FilePath) (name : Text) (fs : Files) (i : ℕ)
    → attempt dir name fs i ≡ none
    → exists (dir ++ numbered name i ∷ []) fs ≡ true
unfolding attempt
attempt-eq-none dir name fs i e = ground arith

resolve_renamed-free :
    (dir : FilePath) (name : Text) (fs : Files) (p : FilePath)
    → resolve_renamed dir name fs ≡ ok (some p)
    → exists p fs ≡ false
unfolding resolve_renamed
resolve_renamed-free dir name fs p e =
    elim (Option-cases (first_from (attempt dir name fs) 999 1)) [
      | inl nothing ↦ ground (arith, nothing)
      | inr (q, found) ↦
          let (o, (lt, hit, before)) = first_from-eq-some (attempt dir name fs) 999 1 q found in
          ground (arith, found, attempt-eq-some dir name fs (1 + o) q hit)
    ]

-- Unless the job overwrites, the target that is chosen for a file is free.
pub resolve_target-free :
    (target_dir : FilePath) (name : Text) (conflict : ConflictStrategy)
    (source_root source p : FilePath) (fs : Files)
    → conflict ≢ overwrite
    → resolve_target target_dir name conflict source_root source fs ≡ ok (some p)
    → exists p fs ≡ false
unfolding resolve_target resolve_taken
resolve_target-free target_dir name skip source_root source p fs keep e = ground arith
resolve_target-free target_dir name overwrite source_root source p fs keep e = absurd (keep refl)
resolve_target-free target_dir name rename source_root source p fs keep e =
    let candidate = target_of source_root source (is_file (fs source_root)) name target_dir in
    ground (arith, resolve_renamed-free (beside target_dir candidate) name fs p)

resolve_renamed-err :
    (dir : FilePath) (name : Text) (fs : Files) (e : Text)
    → resolve_renamed dir name fs ≡ err e
    → first_from (attempt dir name fs) 999 1 ≡ none
unfolding resolve_renamed
resolve_renamed-err dir name fs e h = ground arith

-- A job that renames fails to find a target only if the plain one and all of the 999 numbered names
-- beside it are taken.
pub resolve_target-taken :
    (target_dir : FilePath) (name : Text) (source_root source : FilePath) (fs : Files) (e : Text)
    → resolve_target target_dir name rename source_root source fs ≡ err e
    → let candidate = target_of source_root source (is_file (fs source_root)) name target_dir in
      (exists candidate fs ≡ true)
      × ((i : ℕ)
          → 1 ≤ i
          → i ≤ 999
          → exists (beside target_dir candidate ++ numbered name i ∷ []) fs ≡ true)
unfolding resolve_target resolve_taken
resolve_target-taken target_dir name source_root source fs e h =
    let dir =
      beside target_dir (target_of source_root source (is_file (fs source_root)) name target_dir) in
    (
      ground arith,
      λ i lo hi.
          attempt-eq-none dir name fs i
            (none_at dir i lo hi (resolve_renamed-err dir name fs e (ground arith))),
    )
  where
    none_at :
        (dir : FilePath) (i : ℕ)
        → 1 ≤ i
        → i ≤ 999
        → first_from (attempt dir name fs) 999 1 ≡ none
        → attempt dir name fs i ≡ none
    none_at dir i lo hi nothing =
        let same : 1 + (i - 1) ≡ i = omega arith in
        rw same at (first_from-eq-none (attempt dir name fs) 999 1 nothing (i - 1) (omega arith))
