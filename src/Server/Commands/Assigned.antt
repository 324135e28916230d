-- ===== src/Server/Commands/Assigned.antt =====
-- About `assign_next_command`.
use tidyflow.Server.Commands.Consistent.{
  IsConsistent, IsSettled, status_for, update-IsConsistent, linked-get,
}
use tidyflow.Domain.Admin.{AdminQueuedCommand, pending, running}
use tidyflow.Base.Text.{Text}
use tidyflow.Server.Commands.{assign_next_command, is_pending_for, assigned}
use tidyflow.Server.Deliveries.{
  states_of, update_first, find_first, is_status, command_result_from_deliveries,
}
use tidyflow.Server.Deliveries.Updates.{
  is_status→eq, find_first-holds, update-not_pending, aggregate-running, target_results-running,
}
use tidyflow.Server.State.{AdminServerState, AdminCommandDelivery}
use tidyflow.Base.{ℕ, ◌≡◌, List, ◌==◌, some, Bool, true, false, arith, refl, Option-cases, inl, inr}

assigned-id : (now : ℕ) (d : AdminCommandDelivery) → (assigned now d).command_id ≡ d.command_id
unfolding assigned
assigned-id now d = refl

assigned-IsSettled :
    (p : AdminCommandDelivery → Bool) (now : ℕ) (ds : List AdminCommandDelivery)
    (d : AdminCommandDelivery) (c : AdminQueuedCommand)
    → find_first p ds ≡ some d
    → d.status ≡ pending
    → IsSettled c (states_of d.command_id ds)
    → IsSettled
        (record c { status = running; updated_at = now })
        (states_of d.command_id (update_first p (assigned now) ds))
assigned-IsSettled p now ds d c found waits old =
    let here : (d.command_id == d.command_id) ≡ true = ground arith in
    let busy : (assigned now d).status ≡ running = unfold assigned in refl in
    let closed : is_status (assigned now d).status pending ≡ false =
      unfold is_status in (rw busy refl) in
    let not_all =
      update-not_pending p (assigned now) (assigned-id now) d.command_id ds d found here closed in
    let runs =
      aggregate-running p (assigned now) (assigned-id now) d.command_id ds d found here busy in
    let same =
      target_results-running p (assigned now) (assigned-id now) d.command_id ds d found waits
        busy in
    record {
      status = unfold status_for in ground (arith, not_all, runs);
      result =
          unfold command_result_from_deliveries in
          rw same (unfold command_result_from_deliveries in old.result);
    }

pub assign_next_command-IsConsistent :
    (id : Text) (now : ℕ) (s : AdminServerState)
    → IsConsistent s
    → IsConsistent (assign_next_command id now s).1
unfolding assign_next_command
assign_next_command-IsConsistent id now s h =
    let ds = s.command_deliveries in
    let p = is_pending_for id in
    elim (Option-cases (find_first p ds)) [
      | inl nothing ↦
          let end : (assign_next_command id now s).1 ≡ s = ground (arith, nothing) in rw end h
      | inr (d, found) ↦
          let (c, at) = linked-get p s d h found in
          let states = states_of d.command_id (update_first p (assigned now) ds) in
          let c' : AdminQueuedCommand = record c { status = running; updated_at = now } in
          let waits : d.status ≡ pending =
            is_status→eq d.status pending
              (unfold is_pending_for in ground (arith, find_first-holds p ds d found)) in
          let settled : IsSettled c' states =
            assigned-IsSettled p now ds d c found waits (h.settled d.command_id c at) in
          update-IsConsistent p (assigned now) s (assign_next_command id now s).1 d c'
            (assigned-id now) found (ground (arith, found, at)) (ground (arith, found, at))
            (h.named d.command_id c at) settled h
    ]
