-- ===== src/Server/Runs/Fifo/History.antt =====
-- About the agents' queues after any requests.
use tidyflow.Server.Commands.Waiting.Taken.{record_command_completion-waiting}
use tidyflow.Server.Agents.Frames.{complete_command-state, receive_heartbeat-same}
use tidyflow.Server.Agents.{complete_command, receive_heartbeat}
use tidyflow.Server.Routes.Frames.{
  register_enrollment_token-same, register_operator_token-same, register_agent_secret-same,
  enroll_agent_route-same, create_machine_group_route-same, complete_command_route-same,
  rotate_agent_secret_route-same,
}
use tidyflow.Server.Runs.Summaries.{handle-IsConsistent, new-IsConsistent}
use tidyflow.Server.Commands.Waiting.{waiting}
use tidyflow.Server.Runs.{
  Request, handle, handle_all, AllFresh, registers_enrollment, registers_operator, registers_agent,
  enrolls, groups, batches, polls, completes, beats, rotates,
}
use tidyflow.Server.Commands.Consistent.{SameCommands, IsConsistent}
use tidyflow.Server.Routes.{
  Details, enroll_agent_route, create_machine_group_route, rotate_agent_secret_route,
}
use tidyflow.Server.State.{AdminServerState, new}
use tidyflow.Base.Text.{Text, trim}
use tidyflow.Server.Calls.{
  Transport, register_enrollment_token, register_operator_token, register_agent_secret,
}
use tidyflow.Server.Runs.Fifo.{gives, hands, all_given, all_handed}
use tidyflow.Server.Runs.Fifo.Steps.{route-waiting, poll-waiting}
use tidyflow.Base.{List, [], ◌∷◌, ◌++◌, ◌≡◌, sym, ◌∙◌, ap, inl, arith, inr}
use mathlib.Core.List.{append-nil, append_assoc}

-- A request that does not touch the commands.
quiet :
    (id : Text) (s t : AdminServerState)
    → SameCommands s t
    → waiting id s.command_deliveries ++ [] ≡ [] ++ waiting id t.command_deliveries
quiet id s t (queue, deliveries) = rw deliveries (append-nil (waiting id s.command_deliveries))

module _ (h : Transport) (j : Details) where
  pub handle-waiting :
      (id : Text) (r : Request) (s : AdminServerState)
      → IsConsistent s
      → waiting id s.command_deliveries ++ gives h j id r s
        ≡ hands h j id r s ++ waiting id (handle h j r s).command_deliveries
  unfolding handle gives hands
  handle-waiting id (registers_enrollment token) s v =
      quiet id s (register_enrollment_token token s).1 (register_enrollment_token-same token s)
  handle-waiting id (registers_operator token role) s v =
      quiet id s (register_operator_token token role s).1
        (register_operator_token-same token role s)
  handle-waiting id (registers_agent agent secret) s v =
      quiet id s (register_agent_secret agent secret s).1
        (register_agent_secret-same agent secret s)
  handle-waiting id (enrolls now audit_id r) s v =
      quiet id s (enroll_agent_route h j now 0 audit_id r s).1
        (enroll_agent_route-same h j now 0 audit_id r s)
  handle-waiting id (groups now new_id audit_id header r) s v =
      quiet id s (create_machine_group_route h j now new_id audit_id header r s).1
        (create_machine_group_route-same h j now new_id audit_id header r s)
  handle-waiting id (batches now new_id audit_id header r) s v =
      route-waiting h j id now new_id audit_id header r s
  handle-waiting id (polls now nonce path e) s v =
      append-nil (waiting id s.command_deliveries)
      ∙ unfold hands in poll-waiting h j id now nonce path e s v
  handle-waiting id (completes now audit_id agent command_id e) s v =
      let t = (complete_command h now agent command_id e s).1 in
      let (queue, deliveries) =
        complete_command_route-same h j now 0 audit_id agent command_id e s in
      elim (complete_command-state h now agent command_id e s) [
        | inl same ↦ ground (arith, deliveries, same, append-nil (waiting id s.command_deliveries))
        | inr step ↦ ground (
          arith,
          deliveries,
          step,
          record_command_completion-waiting (trim agent) command_id e.payload now s id,
          append-nil (waiting id s.command_deliveries),
        )
      ]
  handle-waiting id (beats now agent e) s v =
      quiet id s (receive_heartbeat h now agent e s).1 (receive_heartbeat-same h now agent e s)
  handle-waiting id (rotates now audit_id agent e) s v =
      quiet id s (rotate_agent_secret_route h j now 0 audit_id agent e s).1
        (rotate_agent_secret_route-same h j now 0 audit_id agent e s)

  history :
      (id : Text) (rs : List Request) (s : AdminServerState)
      → AllFresh h j rs s
      → IsConsistent s
      → waiting id s.command_deliveries ++ all_given h j id rs s
        ≡ all_handed h j id rs s ++ waiting id (handle_all h j rs s).command_deliveries
  unfolding handle_all all_given all_handed
  history id [] s fresh v = append-nil (waiting id s.command_deliveries)
  history id (r ∷ rs) s (first, rest) v =
      let t = handle h j r s in
      let ih = history id rs t rest (handle-IsConsistent h j r s first v) in
      sym
        (append_assoc (waiting id s.command_deliveries) (gives h j id r s) (all_given h j id rs t))
      ∙ ap (λ q. q ++ all_given h j id rs t) (handle-waiting id r s v)
      ∙ append_assoc (hands h j id r s) (waiting id t.command_deliveries) (all_given h j id rs t)
      ∙ ap (λ q. hands h j id r s ++ q) ih
      ∙ sym (
          append_assoc (hands h j id r s) (all_handed h j id rs t)
            (waiting id (handle_all h j rs t).command_deliveries))

  -- The deliveries are a queue per agent, first in and first out. After any sequence of requests to a new
  -- server, in which each batch got a fresh identifier: the commands of the accepted batches that name an
  -- agent among their resolved targets, in that order, are those that its accepted polls were assigned,
  -- in that order, and then those that still wait for it. So none is lost, repeated or overtaken.
  pub handle_all-fifo :
      (id : Text) (rs : List Request)
      → AllFresh h j rs new
      → all_given h j id rs new
        ≡ all_handed h j id rs new ++ waiting id (handle_all h j rs new).command_deliveries
  handle_all-fifo id rs fresh = unfold new waiting in history id rs new fresh new-IsConsistent
