-- ===== src/App/Blueprints/Variables.antt =====
-- The variables of a folder plan in crates/autoflow-application/src/blueprints.rs.
use tidyflow.Domain.Blueprint.{FolderPlan, FolderPlanVariable}
use tidyflow.Domain.Tokenizer.{is_ascii_alphanumeric}
use tidyflow.Base.Text.{Text, ascii_lower, msg, trim}
use tidyflow.Base.TextMap.{lookup, store}
use tidyflow.Base.{
  List, [], ◌∷◌, ◌++◌, Bool, ◌&&◌, ◌||◌, ◌==◌, if◌then◌else◌, is_empty, Option, none, some,
}

unfoldable pub folder_variable_key : Text → Text
folder_variable_key [] = []
folder_variable_key (c ∷ s) =
    let rest = folder_variable_key s in
    if is_ascii_alphanumeric c || c == b'_' then ascii_lower c ∷ rest else rest

-- The value that is given for a variable, by its name or its key, or its default.
given_value : List (Text × Text) → FolderPlanVariable → Text
unfolding folder_variable_key
given_value overrides v = elim (lookup v.name overrides) [
  | some value ↦ value
  | none ↦ elim (lookup (folder_variable_key v.name) overrides) [
    | some value ↦ value
    | none ↦ v.default_value
  ]
]

abbrev Values : Type 0
Values = List (Text × Text) × List Text

-- The loop over the variables: the values and the warnings so far.
values_from : List (Text × Text) → Bool → Values → List FolderPlanVariable → Values
unfolding given_value
values_from overrides preview so_far [] = so_far
values_from overrides preview (values, warnings) (v ∷ vs) =
    let value = given_value overrides v in
    let missing = v.required && is_empty (trim value) in
    let shown = if missing && preview then b'{' ∷ (v.name ++ b'}' ∷ []) else value in
    values_from overrides preview
      (
        store (folder_variable_key v.name) shown values,
        if missing
            then warnings ++ (msg "required folder variable has no value: " ++ v.name) ∷ []
            else warnings,
      )
      vs

-- The values, and the warnings with those that were added.
unfoldable pub folder_plan_variable_values :
    FolderPlan → List (Text × Text) → Bool → List Text → Values
unfolding values_from
folder_plan_variable_values plan overrides preview warnings =
    values_from overrides preview ([], warnings) plan.variables

missing_from : List (Text × Text) → List FolderPlanVariable → List Text
unfolding given_value
missing_from overrides [] = []
missing_from overrides (v ∷ vs) =
    let rest = missing_from overrides vs in
    if v.required && is_empty (trim (given_value overrides v)) then v.name ∷ rest else rest

unfoldable pub missing_required_folder_variables : FolderPlan → List (Text × Text) → List Text
unfolding missing_from
missing_required_folder_variables plan overrides = missing_from overrides plan.variables

defaults_from : List (Text × Text) → List FolderPlanVariable → List (Text × Text)
defaults_from values [] = values
defaults_from values (v ∷ vs) = defaults_from (store v.name v.default_value values) vs

unfoldable pub folder_plan_default_variables : Option FolderPlan → List (Text × Text)
unfolding defaults_from
folder_plan_default_variables none = []
folder_plan_default_variables (some plan) = defaults_from [] plan.variables
