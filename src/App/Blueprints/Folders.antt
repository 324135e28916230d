-- ===== src/App/Blueprints/Folders.antt =====
-- The actions of a folder blueprint in crates/autoflow-application/src/blueprints.rs, with their paths.
pub mod Under
use tidyflow.App.Blueprints.Variables.{
  folder_plan_variable_values, missing_required_folder_variables,
}
use tidyflow.Domain.Blueprint.{
  Blueprint, FolderAction, FolderActionNode, FolderActionNodes, FolderPlan, copy, create, delete,
  move, no_nodes, node, nodes, rename,
}
use tidyflow.Domain.Error.{DomainError, source_not_found, validation}
use tidyflow.Domain.PathPolicy.{
  is_path_under_root, is_slash, normalize_path, path_eq, slash, validate_relative_path,
}
use tidyflow.Domain.Tokenizer.Display.{parse_template}
use tidyflow.Domain.Tokenizer.Evaluate.{Formats, TokenContext, evaluate, for_directory}
use tidyflow.Domain.Tokenizer.Transforms.{error_text}
use tidyflow.App.Blueprints.Paths.{
  ResolvedFolderActionPaths, join_path, normalize_relative_display, relative_path_invalid,
  resolve_folder_action_paths,
}
use tidyflow.Base.Text.{Text, ends_with_char, msg, replace_char, split, starts_with, trim, trim_by}
use tidyflow.Base.{
  ℕ, List, [], ◌∷◌, ◌++◌, ◌+◌, Bool, true, false, ◌&&◌, ◌||◌, ◌==◌, if◌then◌else◌, is_empty,
  is_some, is_some_and, not, Option, none, some, Result, ok, err, ◌>>=◌, ◌>>◌, bail_if,
}

pub record FolderActionPlanItem : Type 0 where
  pub action : FolderAction
  pub source : Option Text
  pub target : Option Text

pub record FolderActionPlan : Type 0 where
  pub items : List FolderActionPlanItem
  pub warnings : List Text

-- What is read of the disk, and the other parameters: `canonicalize`, the formats of the tokens, and the
-- clock and the new identifiers, which are read for each node: by the path of its parent and its index.
pub record World : Type 0 where
  pub exists : Text → Bool
  pub is_dir : Text → Bool
  pub has_entries : Text → Bool
  pub canonicalize : Text → Option Text
  pub formats : Formats
  pub now : Text → ℕ → ℕ
  pub new_guid : Text → ℕ → ℕ

-- The directory that the paths are relative to, the root, and the values of the variables.
pub record Base : Type 0 where
  pub base : Text
  pub canonical_root : Text
  pub variables : List (Text × Text)

is_delete : FolderAction → Bool
is_delete delete = true
is_delete create = false
is_delete rename = false
is_delete move = false
is_delete copy = false

or_parent : Text → Option Text → Text
or_parent parent none = parent
or_parent parent (some rel) = rel

first_of_two : Option Text → Option Text → Text
first_of_two (some s) t = s
first_of_two none (some t) = t
first_of_two none none = []

children_ignored : FolderActionNodes → ResolvedFolderActionPaths → List Text
unfolding first_of_two
children_ignored no_nodes p = []
children_ignored (nodes n rest) p =
    (msg "children ignored after delete action: " ++ first_of_two p.source_rel p.target_rel) ∷ []

module _ (w : World) where
  open w use {exists, is_dir, has_entries, canonicalize, formats, now, new_guid}

  unfoldable pub safe_join : Text → Text → Text → Result DomainError Text
  unfolding join_path
  safe_join base canonical_root relative =
      bail_if (relative_path_invalid relative)
        (validation (msg "invalid relative folder path: " ++ relative))
      >> bail_if (not (is_path_under_root canonicalize (join_path base relative) canonical_root))
          (validation (msg "folder action escapes root: " ++ join_path base relative))
      >> ok (join_path base relative)

  join_given : Text → Text → Option Text → Result DomainError (Option Text)
  join_given base canonical_root none = ok none
  join_given base canonical_root (some rel) =
      if is_empty (trim rel)
      then ok none
      else safe_join base canonical_root rel >>= λ p. ok (some p)

  -- With `strict` set: an error of the evaluation is the caller's.
  unfoldable pub evaluate_folder_template : Text → TokenContext → Text → Result DomainError Text
  evaluate_folder_template input ctx label =
      if is_empty (trim input) then ok [] else elim (evaluate formats (parse_template input) ctx) [
        | ok value ↦ ok value
        | err e ↦
            err (validation (msg "invalid folder " ++ label ++ msg " template: " ++ error_text e))
      ]

  context_of : Base → Text → ℕ → TokenContext
  context_of b parent index =
      record (for_directory (now parent index) (new_guid parent index) b.base index index) {
        variables = b.variables;
      }

  -- The item of one node, with its relative paths.
  node_item :
      Base
      → Text
      → ℕ
      → FolderAction
      → Text
      → Text
      → Text
      → Result DomainError (FolderActionPlanItem × ResolvedFolderActionPaths)
  unfolding context_of join_given
  node_item b parent index action name source target =
      let ctx = context_of b parent index in
      do
        name' ← evaluate_folder_template name ctx (msg "name")
        source' ← evaluate_folder_template source ctx (msg "source")
        target' ← evaluate_folder_template target ctx (msg "target")
        resolved ← resolve_folder_action_paths action parent name' source' target'
        from ← join_given b.base b.canonical_root resolved.source_rel
        to ← join_given b.base b.canonical_root resolved.target_rel
        ok (record { action = action; source = from; target = to }, resolved)

  -- The items and the warnings of the nodes from the one with this index on, in the order in which they
  -- are pushed.
  unfoldable pub collect_folder_action_nodes :
      Base → Text → ℕ → FolderActionNodes → Result DomainError FolderActionPlan
  unfolding node_item children_ignored or_parent is_delete evaluate_folder_template safe_join
  collect_folder_action_nodes b parent index no_nodes = ok (record { items = []; warnings = [] })
  collect_folder_action_nodes b parent index
        (nodes (node action name source target children) rest) =
      node_item b parent index action name source target >>= λ (item, resolved).
      (if is_delete action
        then ok (record { items = []; warnings = children_ignored children resolved })
        else collect_folder_action_nodes b (trim_by is_slash (or_parent parent resolved.target_rel))
            1 children)
      >>= λ below. collect_folder_action_nodes b parent (index + 1) rest >>= λ after. ok (record {
        items = item ∷ below.items ++ after.items;
        warnings = below.warnings ++ after.warnings;
      })
