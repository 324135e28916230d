-- ===== src/App/Blueprints/Plans.antt =====
-- The plan of a folder blueprint in crates/autoflow-application/src/blueprints.rs, with the checks before it
-- is carried out.
pub mod Safe
mod Tests
use tidyflow.App.Blueprints.Variables.{
  folder_plan_variable_values, missing_required_folder_variables,
}
use tidyflow.Domain.Blueprint.{
  Blueprint, FolderAction, FolderActionNode, FolderActionNodes, FolderPlan, copy, create, delete,
  move, no_nodes, node, nodes, rename,
}
use tidyflow.Domain.Error.{DomainError, source_not_found, validation}
use tidyflow.Domain.PathPolicy.{
  is_path_under_root, is_slash, normalize_path, path_eq, slash, validate_relative_path,
}
use tidyflow.Domain.Tokenizer.Display.{parse_template}
use tidyflow.Domain.Tokenizer.Evaluate.{Formats, TokenContext, evaluate, for_directory}
use tidyflow.Domain.Tokenizer.Transforms.{error_text}
use tidyflow.App.Blueprints.Folders.{
  FolderActionPlan, FolderActionPlanItem, World, collect_folder_action_nodes,
}
use tidyflow.Base.Text.{Text, ends_with_char, msg, replace_char, split, starts_with, trim, trim_by}
use tidyflow.Base.{
  ℕ, List, [], ◌∷◌, ◌++◌, ◌+◌, Bool, true, false, ◌&&◌, ◌||◌, ◌==◌, if◌then◌else◌, is_empty,
  is_some, is_some_and, not, Option, none, some, Result, ok, err, ◌>>=◌, ◌>>◌, bail_if,
}

-- `join(", ")`.
join_missing : List Text → Text
join_missing [] = []
join_missing (p ∷ []) = p
join_missing (p ∷ q ∷ ps) = p ++ b',' ∷ b' ' ∷ join_missing (q ∷ ps)

module _ (w : World) where
  open w use {exists, is_dir, has_entries, canonicalize}

  check_transfer : Bool → Text → Option Text → Result DomainError (Unit {0})
  check_transfer dry_run source target =
      if not dry_run && not (is_dir source)
      then bail_if (not (is_some_and is_dir target)) (source_not_found source)
      else bail_if (not (is_some target)) (validation (msg "folder action requires a target"))

  check_delete : FolderPlan → Text → Bool → Text → Result DomainError (Unit {0})
  check_delete plan root dry_run source =
      bail_if (path_eq (normalize_path canonicalize source) (normalize_path canonicalize root))
        (validation (msg "delete folder action cannot target the root folder"))
      >> bail_if (not dry_run && not (is_dir source)) (source_not_found source)
      >> bail_if
          (exists source
            && has_entries source
            && not (plan.allow_delete_non_empty && plan.confirm_delete_non_empty))
          (validation
            (msg "delete non-empty folder requires both safety confirmations: " ++ source))

  check_item :
      FolderPlan
      → Text
      → Bool
      → FolderAction
      → Option Text
      → Option Text
      → Result DomainError (Unit {0})
  unfolding check_transfer check_delete
  check_item plan root dry_run create source target =
      bail_if (not (is_some target)) (validation (msg "create folder action requires a target"))
  check_item plan root dry_run delete none target =
      err (validation (msg "delete folder action requires a source"))
  check_item plan root dry_run delete (some source) target = check_delete plan root dry_run source
  check_item plan root dry_run rename none target =
      err (validation (msg "folder action requires a source"))
  check_item plan root dry_run rename (some source) target = check_transfer dry_run source target
  check_item plan root dry_run move none target =
      err (validation (msg "folder action requires a source"))
  check_item plan root dry_run move (some source) target = check_transfer dry_run source target
  check_item plan root dry_run copy none target =
      err (validation (msg "folder action requires a source"))
  check_item plan root dry_run copy (some source) target = check_transfer dry_run source target

  pub preflight_folder_action_plan :
      List FolderActionPlanItem → FolderPlan → Text → Bool → Result DomainError (Unit {0})
  unfolding check_item
  preflight_folder_action_plan [] plan root dry_run = ok tt
  preflight_folder_action_plan (i ∷ items) plan root dry_run =
      check_item plan root dry_run i.action i.source i.target
      >> preflight_folder_action_plan items plan root dry_run

  require_variables : FolderPlan → List (Text × Text) → Bool → Result DomainError (Unit {0})
  require_variables plan variables dry_run =
      bail_if (not dry_run && not (is_empty (missing_required_folder_variables plan variables))) (
        validation (
          msg "required folder variables missing values: "
          ++ join_missing (missing_required_folder_variables plan variables)))

  unfoldable pub build_folder_action_plan_for_nodes :
      Blueprint
      → FolderPlan
      → FolderActionNodes
      → Text
      → List (Text × Text)
      → (dry_run enforce_required : Bool) → Result DomainError FolderActionPlan
  unfolding require_variables join_missing preflight_folder_action_plan
  build_folder_action_plan_for_nodes blueprint plan action_nodes base_root variables dry_run
        enforce_required =
      let canonical_root = normalize_path canonicalize blueprint.root_path in
      let base = normalize_path canonicalize base_root in
      let (values, warnings) = folder_plan_variable_values plan variables dry_run [] in
      bail_if (not (is_path_under_root canonicalize base canonical_root))
        (validation (msg "folder action base escapes blueprint root: " ++ base_root))
      >> (if enforce_required then require_variables plan variables dry_run else ok tt)
      >> collect_folder_action_nodes w
          (record { base = base; canonical_root = canonical_root; variables = values }) [] 1
          action_nodes
      >>= λ p.
          preflight_folder_action_plan p.items plan blueprint.root_path dry_run
          >> ok (record { items = p.items; warnings = warnings ++ p.warnings })

  unfoldable pub build_folder_action_plan :
      Blueprint → List (Text × Text) → (dry_run : Bool) → Result DomainError FolderActionPlan
  unfolding build_folder_action_plan_for_nodes require_variables join_missing
  build_folder_action_plan blueprint variables dry_run = elim blueprint.folder_plan [
    | none ↦ err (validation (msg "folder_plan is required for folder blueprints"))
    | some plan ↦
        require_variables plan variables dry_run
        >> build_folder_action_plan_for_nodes blueprint plan plan.action_nodes blueprint.root_path
            variables dry_run true
  ]
