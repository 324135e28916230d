-- ===== src/Domain/Blueprint.antt =====
-- crates/autoflow-domain/src/blueprint.rs. An identifier is a number, an instant nanoseconds.
use tidyflow.Domain.Counter.{CounterConfig, validate as validate_counter}
use tidyflow.Domain.Error.{DomainError, validation}
use tidyflow.Domain.FileFilter.{FileFilter}
use tidyflow.Domain.Job.{ConflictStrategy}
use tidyflow.Domain.PathPolicy.{validate_relative_path}
use tidyflow.Domain.Tokenizer.{TemplatePipeline, is_ascii_alphanumeric}
use tidyflow.Domain.Tokenizer.Display.{is_identifier}
use tidyflow.Domain.Watch.{WatchConfig, validate_watch}
use tidyflow.Base.Text.{Text, ascii_lower, byte_len, msg, trim}
use tidyflow.Base.TextMap.{contains_text}
use tidyflow.Base.{
  ℕ, List, [], ◌∷◌, ◌++◌, Bool, true, false, ◌||◌, ◌==◌, if◌then◌else◌, is_empty, is_some_and, ltb,
  not, Option, none, some, Result, ok, err, ◌>>◌, bail_if,
}

pub data BlueprintKind : Type 0 where
  file folder : BlueprintKind

pub data BlueprintOperation : Type 0 where
  move copy : BlueprintOperation

pub record RoutingConfig : Type 0 where
  pub path_template : TemplatePipeline
  pub create_intermediate_dirs : Bool

pub data FolderAction : Type 0 where
  create rename move copy delete : FolderAction

-- `node` has the action, the name, the source path, the target path and the children.
mutual
  pub data FolderActionNode : Type 0 where
    node :
        FolderAction → (name source_path target_path : Text) → FolderActionNodes → FolderActionNode

  pub data FolderActionNodes : Type 0 where
    no_nodes : FolderActionNodes
    nodes : FolderActionNode → FolderActionNodes → FolderActionNodes

pub record FolderPlanVariable : Type 0 where
  pub name : Text
  pub label : Text
  pub default_value : Text
  pub required : Bool

pub record FolderPlan : Type 0 where
  pub version : ℕ
  pub variables : List FolderPlanVariable
  pub allow_delete_non_empty : Bool
  pub confirm_delete_non_empty : Bool
  pub action_nodes : FolderActionNodes

pub record Blueprint : Type 0 where
  pub id : ℕ
  pub name : Text
  pub kind : BlueprintKind
  pub root_path : Text
  pub search : FileFilter
  pub routing : RoutingConfig
  pub operation : BlueprintOperation
  pub recursive : Bool
  pub conflict : ConflictStrategy
  pub rename_template : Option TemplatePipeline
  pub folder_plan : Option FolderPlan
  pub watch : Option WatchConfig
  pub counter : CounterConfig
  pub enabled : Bool
  pub last_run : Option ℕ

pub record BlueprintSummary : Type 0 where
  pub id : ℕ
  pub name : Text
  pub kind : BlueprintKind
  pub root_path : Text
  pub operation : BlueprintOperation
  pub enabled : Bool
  pub last_run : Option ℕ
  pub watch_enabled : Bool

-- The key by which two variables are the same.
variable_key : Text → Text
variable_key [] = []
variable_key (c ∷ s) =
    let rest = variable_key s in if is_ascii_alphanumeric c then ascii_lower c ∷ rest else rest

validate_variables : List Text → List FolderPlanVariable → Result DomainError (Unit {0})
unfolding variable_key
validate_variables seen [] = ok tt
validate_variables seen (v ∷ vs) =
    let name = trim v.name in
    bail_if (is_empty name) (validation (msg "folder variable name cannot be empty"))
    >> bail_if (not (is_identifier name))
        (validation (msg "folder variable name must be an identifier: " ++ name))
    >> bail_if (contains_text (variable_key name) seen)
        (validation (msg "duplicate folder variable name: " ++ name))
    >> validate_variables (variable_key name ∷ seen) vs

of_policy : Result Text (Unit {0}) → Result DomainError (Unit {0})
of_policy (ok u) = ok u
of_policy (err e) = err (validation e)

-- A path that is given is relative.
validate_given : Text → Result DomainError (Unit {0})
unfolding of_policy
validate_given path =
    if is_empty (trim path) then ok tt else of_policy (validate_relative_path path)

mutual
  unfolding validate_given

  pub validate_folder_action_node : FolderActionNode → Result DomainError (Unit {0})
  validate_folder_action_node (node action name source target children) =
      validate_given source >> validate_given target >> validate_folder_action_nodes children

  pub validate_folder_action_nodes : FolderActionNodes → Result DomainError (Unit {0})
  validate_folder_action_nodes no_nodes = ok tt
  validate_folder_action_nodes (nodes n rest) =
      validate_folder_action_node n >> validate_folder_action_nodes rest

pub validate_plan : FolderPlan → Result DomainError (Unit {0})
unfolding validate_variables validate_folder_action_nodes
validate_plan p =
    bail_if (p.version == 0) (validation (msg "folder plan version must be at least 1"))
    >> validate_variables [] p.variables
    >> validate_folder_action_nodes p.action_nodes

-- An activated watch stays as it is.
unfoldable pub normalize : Blueprint → Blueprint
normalize b = record b { search = record b.search { recursive = b.recursive } }

needs_template : BlueprintKind → RoutingConfig → Bool
needs_template file r = is_empty r.path_template
needs_template folder r = false

needs_plan : BlueprintKind → Option FolderPlan → Bool
needs_plan folder none = true
needs_plan folder (some p) = false
needs_plan file p = false

module _ (regex_error : Text → Option Text) where
  unfoldable pub validate : Blueprint → Result DomainError (Unit {0})
  unfolding needs_template needs_plan validate_plan
  validate b =
      bail_if (is_empty (trim b.name) || ltb 120 (byte_len (trim b.name)))
        (validation (msg "name must be between 1 and 120 characters"))
      >> bail_if (is_empty (trim b.root_path)) (validation (msg "root_path is required"))
      >> bail_if (needs_template b.kind b.routing)
          (validation (msg "file blueprints require a routing template"))
      >> bail_if (needs_plan b.kind b.folder_plan)
          (validation (msg "folder blueprints require a folder plan"))
      >> bail_if (is_some_and is_empty b.rename_template)
          (validation (msg "rename template cannot be empty"))
      >> elim b.folder_plan [ none ↦ ok tt | some p ↦ validate_plan p ]
      >> validate_counter b.counter
      >> elim b.watch [ none ↦ ok tt | some w ↦ validate_watch regex_error w ]

unfoldable pub summary : Blueprint → BlueprintSummary
summary b = record {
  id = b.id;
  name = b.name;
  kind = b.kind;
  root_path = b.root_path;
  operation = b.operation;
  enabled = b.enabled;
  last_run = b.last_run;
  watch_enabled = is_some_and (λ w. w.enabled) b.watch;
}
