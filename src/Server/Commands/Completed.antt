-- ===== src/Server/Commands/Completed.antt =====
-- About `record_command_completion`.
use tidyflow.Server.Commands.Consistent.{
  IsConsistent, IsSettled, status_for, update-IsConsistent, linked-get,
}
use tidyflow.Domain.Admin.{AdminQueuedCommand, pending, running, AdminCommandCompletionRequest}
use tidyflow.Base.Text.{Text}
use tidyflow.Server.Commands.{
  record_command_completion, is_delivery, completed_by, complete_running,
}
use tidyflow.Server.Deliveries.{
  states_of, update_first, find_first, aggregate_command_status, is_status,
  command_result_from_deliveries, command_delivery_states, completion_status_to_command_status,
}
use tidyflow.Server.Deliveries.Updates.{all_pending, find_first-holds, update-not_pending}
use tidyflow.Server.State.{AdminServerState, AdminCommandDelivery, AdminCommandDeliveryState}
use tidyflow.Base.Map.{get, insert}
use tidyflow.Base.{
  ℕ, ◌≡◌, List, [], ◌∷◌, some, false, arith, refl, Bool-cases, Option-cases, inl, inr, is_empty, ok,
}

completed_by-id :
    (completion : AdminCommandCompletionRequest) (d : AdminCommandDelivery)
    → (completed_by completion d).command_id ≡ d.command_id
unfolding completed_by
completed_by-id completion d = refl

completed_by-closed :
    (completion : AdminCommandCompletionRequest) (d : AdminCommandDelivery)
    → is_status (completed_by completion d).status pending ≡ false
unfolding completed_by completion_status_to_command_status is_status
completed_by-closed completion d = ground arith

nonempty :
    (states : List AdminCommandDeliveryState) → all_pending states ≡ false → is_empty states ≡ false
nonempty [] h = cc
nonempty (x ∷ states) h = refl

-- The queue's entry that a completion makes.
abbrev settled_command :
    ℕ → List AdminCommandDeliveryState → AdminQueuedCommand → AdminQueuedCommand
settled_command now states c = record c {
  status = aggregate_command_status states;
  result = command_result_from_deliveries c.request.kind states;
  updated_at = now;
}

-- A completion of a running delivery, on a consistent server.
complete_running-eq :
    (id : Text) (command : ℕ) (completion : AdminCommandCompletionRequest) (now : ℕ)
    (s : AdminServerState) (d : AdminCommandDelivery) (c : AdminQueuedCommand)
    → find_first (is_delivery command id) s.command_deliveries ≡ some d
    → d.command_id ≡ command
    → get command s.command_queue ≡ some c
    → let ds =
        update_first (is_delivery command id) (completed_by completion) s.command_deliveries in
      let c' = settled_command now (states_of command ds) c in
      (complete_running id command completion now s ≡ (
        ok c',
        record s { command_deliveries = ds; command_queue = insert command c' s.command_queue },
      ))
      × IsSettled c' (states_of command ds)
unfolding complete_running command_delivery_states
complete_running-eq id command completion now s d c found here at =
    let p = is_delivery command id in
    let ds = update_first p (completed_by completion) s.command_deliveries in
    let not_all =
      update-not_pending p (completed_by completion) (completed_by-id completion) command
        s.command_deliveries d found (rw here (ground arith)) (completed_by-closed completion d) in
    let some_state = nonempty (states_of command ds) not_all in
    (
      ground (arith, some_state, at),
      record { status = unfold status_for in ground (arith, not_all); result = refl },
    )

pub record_command_completion-IsConsistent :
    (id : Text) (command : ℕ) (completion : AdminCommandCompletionRequest) (now : ℕ)
    (s : AdminServerState)
    → IsConsistent s
    → IsConsistent (record_command_completion id command completion now s).1
unfolding record_command_completion
record_command_completion-IsConsistent id command completion now s h =
    let ds = s.command_deliveries in
    let p = is_delivery command id in
    let t = (record_command_completion id command completion now s).1 in
    elim (Option-cases (find_first p ds)) [
      | inl nothing ↦ let end : t ≡ s = ground (arith, nothing) in rw end h
      | inr (d, found) ↦ elim (Bool-cases (is_status d.status running)) [
        | inr idle ↦ let end : t ≡ s = ground (arith, found, idle) in rw end h
        | inl busy ↦
            let here : d.command_id ≡ command =
              unfold is_delivery in ground (arith, find_first-holds p ds d found) in
            let (c, at) = linked-get p s d h found in
            let at_command : get command s.command_queue ≡ some c = rw here at at in
            let (run, settled) =
              complete_running-eq id command completion now s d c found here at_command in
            let states = states_of command (update_first p (completed_by completion) ds) in
            update-IsConsistent p (completed_by completion) s t d (settled_command now states c)
              (completed_by-id completion) found (ground (arith, found, busy, run))
              (rw here (ground (arith, found, busy, run))) (h.named d.command_id c at)
              (rw here settled) h
      ]
    ]
