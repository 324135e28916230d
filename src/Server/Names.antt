-- ===== src/Server/Names.antt =====
-- The normalisation of identifiers, names and secrets in lib.rs.
pub mod Distinct
use tidyflow.Base.Text.{Text, trim}
use tidyflow.Base.TextMap.{contains_text}
use tidyflow.Server.State.{
  AdminServerError, missing_instance_id, missing_agent_secret, missing_machine_group_name,
}
use tidyflow.Base.{
  List, [], ◌∷◌, ◌++◌, Result, ok, err, Option, none, some, ◌||◌, if◌then◌else◌, is_empty, ◌>>=◌,
}

-- `value.map(trim).filter(not empty)`.
unfoldable pub optional_text : Option Text → Option Text
optional_text none = none
optional_text (some t) = if is_empty (trim t) then none else some (trim t)

unfoldable pub normalize_required_secret : Text → AdminServerError → Result AdminServerError Text
normalize_required_secret secret missing_error =
    if is_empty (trim secret) then err missing_error else ok (trim secret)

unfoldable pub normalize_instance_id : Text → Result AdminServerError Text
normalize_instance_id id = if is_empty (trim id) then err missing_instance_id else ok (trim id)

unfoldable pub normalize_group_name : Text → Result AdminServerError Text
normalize_group_name name =
    if is_empty (trim name) then err missing_machine_group_name else ok (trim name)

unfoldable pub normalize_agent_secret : Text → Text → Result AdminServerError (Text × Text)
normalize_agent_secret instance_id secret = do
  id ← normalize_instance_id instance_id
  agent_secret ← normalize_required_secret secret missing_agent_secret
  ok (id, agent_secret)

-- The loop of `normalize_instance_ids`, from what was pushed so far.
pub push_ids : List Text → List Text → List Text
push_ids normalized [] = normalized
push_ids normalized (id ∷ ids) =
    push_ids
      (if is_empty (trim id) || contains_text (trim id) normalized
        then normalized
        else normalized ++ trim id ∷ [])
      ids

unfoldable pub normalize_instance_ids : List Text → List Text
unfolding push_ids
normalize_instance_ids ids = push_ids [] ids
