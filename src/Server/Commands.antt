-- ===== src/Server/Commands.antt =====
-- The command queue of MemoryAdminServerStore.
pub mod Consistent
pub mod Batch
pub mod Assigned
pub mod Completed
pub mod Waiting
use tidyflow.Base.Text.{Text, text_eq}
use tidyflow.Base.Map.{get, insert}
use tidyflow.Domain.Admin.{
  running, pending, AdminQueuedCommand, AdminCommandAssignment, AdminCommandCompletionRequest,
}
use tidyflow.Base.{
  ℕ, List, [], ◌∷◌, ◌++◌, ◌==◌, Result, ok, err, Option, none, some, Bool, if◌then◌else◌, not, ◌&&◌,
  map, ◌+◌,
}
use tidyflow.Server.State.{
  AdminServerState, AdminCommandDelivery, AdminCommandDeliveryState, AdminServerError,
  command_target_not_found, command_not_found, command_not_running,
}
use tidyflow.Server.Deliveries.{
  is_status, find_first, update_first, completion_status_to_command_status, command_delivery_states,
  completion_message, aggregate_command_status, command_result_from_deliveries,
}

unfoldable pub pending_delivery : ℕ → Text → AdminCommandDelivery
pending_delivery id target = record {
  command_id = id;
  target_instance_id = target;
  status = pending;
  assigned_at = none;
  completed_at = none;
  message = none;
}

unfoldable pub save_batch_command :
    AdminQueuedCommand → List Text → AdminServerState → AdminServerState
unfolding pending_delivery
save_batch_command command targets s = record s {
  command_queue = insert command.id command s.command_queue;
  command_deliveries = s.command_deliveries ++ map (pending_delivery command.id) targets;
}

unfoldable pub is_pending_for : Text → AdminCommandDelivery → Bool
is_pending_for id d = text_eq d.target_instance_id id && is_status d.status pending

unfoldable pub command_assignment : AdminQueuedCommand → Text → ℕ → AdminCommandAssignment
command_assignment command target now = record {
  command_id = command.id;
  target_instance_id = target;
  request = record command.request { target_instance_ids = target ∷ [] };
  assigned_at = now;
}

pub assigned : ℕ → AdminCommandDelivery → AdminCommandDelivery
assigned now d = record d { status = running; assigned_at = some now }

-- The delivery was changed before the command is looked up.
assign_from :
    Text
    → ℕ
    → AdminServerState
    → Option AdminCommandDelivery
    → Result AdminServerError (Option AdminCommandAssignment) × AdminServerState
unfolding assigned
assign_from id now s none = (ok none, s)
assign_from id now s (some d) =
    let t : AdminServerState = record s {
      command_deliveries = update_first (is_pending_for id) (assigned now) s.command_deliveries;
    } in
    elim (get d.command_id s.command_queue) [
      | none ↦ (err (command_not_found d.command_id), t)
      | some c ↦
          let command : AdminQueuedCommand = record c { status = running; updated_at = now } in
          (
            ok (some (command_assignment command id now)),
            record t { command_queue = insert d.command_id command s.command_queue },
          )
    ]

unfoldable pub assign_next_command :
    Text
    → ℕ
    → AdminServerState
    → Result AdminServerError (Option AdminCommandAssignment) × AdminServerState
unfolding assign_from
assign_next_command id now s =
    assign_from id now s (find_first (is_pending_for id) s.command_deliveries)

pub count_if : (AdminCommandDelivery → Bool) → List AdminCommandDelivery → ℕ
count_if p [] = 0
count_if p (d ∷ ds) = (if p d then 1 else 0) + count_if p ds

unfoldable pub pending_command_count : Text → AdminServerState → ℕ
unfolding count_if
pending_command_count id s = count_if (is_pending_for id) s.command_deliveries

unfoldable pub is_delivery : ℕ → Text → AdminCommandDelivery → Bool
is_delivery command id d = d.command_id == command && text_eq d.target_instance_id id

pub completed_by : AdminCommandCompletionRequest → AdminCommandDelivery → AdminCommandDelivery
completed_by completion d = record d {
  status = completion_status_to_command_status completion.status;
  completed_at = some completion.completed_at;
  message = some (completion_message completion.status completion.message);
}

settle_command :
    ℕ
    → ℕ
    → AdminServerState
    → List AdminCommandDeliveryState
    → Option AdminQueuedCommand
    → Result AdminServerError AdminQueuedCommand × AdminServerState
settle_command id now s states none = (err (command_not_found id), s)
settle_command id now s states (some c) =
    let command : AdminQueuedCommand = record c {
      status = aggregate_command_status states;
      result = command_result_from_deliveries c.request.kind states;
      updated_at = now;
    } in
    (ok command, record s { command_queue = insert id command s.command_queue })

complete_running :
    Text
    → ℕ
    → AdminCommandCompletionRequest
    → ℕ
    → AdminServerState
    → Result AdminServerError AdminQueuedCommand × AdminServerState
unfolding completed_by settle_command
complete_running id command completion now s =
    let t : AdminServerState = record s {
      command_deliveries =
          update_first (is_delivery command id) (completed_by completion) s.command_deliveries;
    } in
    elim (command_delivery_states t.command_deliveries command) [
      | err e ↦ (err e, t)
      | ok states ↦ settle_command command now t states (get command t.command_queue)
    ]

complete_found :
    Text
    → ℕ
    → AdminCommandCompletionRequest
    → ℕ
    → AdminServerState
    → Option AdminCommandDelivery
    → Result AdminServerError AdminQueuedCommand × AdminServerState
unfolding complete_running
complete_found id command completion now s none = (err (command_target_not_found command id), s)
complete_found id command completion now s (some d) =
    if not (is_status d.status running)
    then (err (command_not_running command id), s)
    else complete_running id command completion now s

unfoldable pub record_command_completion :
    Text
    → ℕ
    → AdminCommandCompletionRequest
    → ℕ
    → AdminServerState
    → Result AdminServerError AdminQueuedCommand × AdminServerState
unfolding complete_found
record_command_completion id command completion now s =
    complete_found id command completion now s
      (find_first (is_delivery command id) s.command_deliveries)
