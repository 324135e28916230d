-- ===== src/Server/Deliveries.antt =====
-- The deliveries of a command to its targets, and what the command's status and result make of them.
pub mod Updates
use tidyflow.Domain.Admin.{
  failed, accepted, AdminCommandTargetResult, AdminCommandKind, AdminCommandCompletionStatus,
  AdminCommandTargetStatus, AdminQueuedCommandStatus, running, AdminCommandResult, pending,
  completed, error, skipped,
}
use tidyflow.Base.Text.{Text, trim, msg}
use tidyflow.Base.{
  ℕ, List, [], ◌∷◌, ◌==◌, Result, ok, err, Option, none, some, Bool, true, false, if◌then◌else◌,
  is_empty, not, any, all,
}
use tidyflow.Server.State.{
  AdminCommandDelivery, AdminCommandDeliveryState, AdminServerError, command_not_found,
}

module _ {ℓ} {A : Type ℓ} (p : A → Bool) where
  -- `iter().find`.
  unfoldable pub find_first : List A → Option A
  find_first [] = none
  find_first (x ∷ xs) = let rest = find_first xs in if p x then some x else rest

  -- What `iter_mut().find` lets change.
  unfoldable pub update_first : (A → A) → List A → List A
  update_first f [] = []
  update_first f (x ∷ xs) = let rest = update_first f xs in if p x then f x ∷ xs else x ∷ rest

unfoldable pub is_status : AdminQueuedCommandStatus → AdminQueuedCommandStatus → Bool
is_status pending pending = true
is_status running running = true
is_status completed completed = true
is_status failed failed = true
is_status skipped skipped = true
is_status _ _ = false

-- `filter(command_id).map(AdminCommandDeliveryState)`, without the test for an empty list.
unfoldable pub states_of : ℕ → List AdminCommandDelivery → List AdminCommandDeliveryState
states_of id [] = []
states_of id (d ∷ ds) =
    let rest = states_of id ds in
    if d.command_id == id
    then record {
      target_instance_id = d.target_instance_id;
      status = d.status;
      message = d.message;
    }
      ∷ rest
    else rest

unfoldable pub command_delivery_states :
    List AdminCommandDelivery → ℕ → Result AdminServerError (List AdminCommandDeliveryState)
command_delivery_states ds id =
    if is_empty (states_of id ds) then err (command_not_found id) else ok (states_of id ds)

unfoldable pub completion_status_to_command_status :
    AdminCommandCompletionStatus → AdminQueuedCommandStatus
completion_status_to_command_status AdminCommandCompletionStatus.completed = completed
completion_status_to_command_status AdminCommandCompletionStatus.failed = failed
completion_status_to_command_status AdminCommandCompletionStatus.skipped = skipped

default_message : AdminCommandCompletionStatus → Text
default_message AdminCommandCompletionStatus.completed = msg "Comando concluido"
default_message AdminCommandCompletionStatus.failed = msg "Comando falhou"
default_message AdminCommandCompletionStatus.skipped = msg "Comando ignorado"

unfoldable pub completion_message : AdminCommandCompletionStatus → Text → Text
unfolding default_message
completion_message status message =
    if not (is_empty (trim message)) then trim message else default_message status

is_open : AdminQueuedCommandStatus → Bool
is_open pending = true
is_open running = true
is_open completed = false
is_open failed = false
is_open skipped = false

unfoldable pub aggregate_command_status : List AdminCommandDeliveryState → AdminQueuedCommandStatus
unfolding is_open
aggregate_command_status states =
    if any (λ s. is_open s.status) states
    then running
    else if any (λ s. is_status s.status failed) states
    then failed
    else if all (λ s. is_status s.status skipped) states
    then skipped
    else completed

target_status : AdminQueuedCommandStatus → Option AdminCommandTargetStatus
target_status completed = some accepted
target_status failed = some error
target_status skipped = some AdminCommandTargetStatus.skipped
target_status pending = none
target_status running = none

given_message : Option Text → Text
given_message none = msg "Comando finalizado"
given_message (some m) = m

unfoldable pub target_results : List AdminCommandDeliveryState → List AdminCommandTargetResult
unfolding target_status given_message
target_results [] = []
target_results (s ∷ states) =
    let rest = target_results states in
    elim (target_status s.status) [
      | none ↦ rest
      | some status ↦
          record {
            target_instance_id = s.target_instance_id;
            status = status;
            message = given_message s.message;
          }
          ∷ rest
    ]

is_error : AdminCommandTargetStatus → Bool
is_error accepted = false
is_error AdminCommandTargetStatus.skipped = false
is_error error = true

result_of : AdminCommandKind → List AdminCommandTargetResult → Option AdminCommandResult
unfolding is_error
result_of kind [] = none
result_of kind (r ∷ results) = some (record {
  accepted = not (any (λ x. is_error x.status) (r ∷ results));
  command = kind;
  results = r ∷ results;
})

unfoldable pub command_result_from_deliveries :
    AdminCommandKind → List AdminCommandDeliveryState → Option AdminCommandResult
unfolding target_results result_of
command_result_from_deliveries kind states = result_of kind (target_results states)
