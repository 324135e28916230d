-- ===== src/Server/Commands/Waiting/Taken.antt =====
-- About the command that `assign_next_command` takes, and about what a completion leaves.
use tidyflow.Server.Commands.Consistent.{IsConsistent, linked-get}
use tidyflow.Server.Deliveries.{find_first, is_status}
use tidyflow.Server.State.{AdminServerState}
use tidyflow.Domain.Admin.{AdminCommandCompletionRequest, AdminCommandAssignment, running}
use tidyflow.Server.Commands.Waiting.{
  waiting, waiting-none, waiting-assigned, waiting-assigned_other, waiting-completed,
}
use tidyflow.Server.Commands.{
  assign_next_command, record_command_completion, is_pending_for, is_delivery, command_assignment,
}
use tidyflow.Base.Text.{Text, text_eq}
use tidyflow.Base.{
  ℕ, [], ◌∷◌, ◌≡◌, none, some, false, Option-cases, Bool-cases, inl, inr, arith, ok, ◌⊎◌,
}

-- What an assignment to the agent leaves, with the command that it takes.
pub record Takes (id : Text) (now : ℕ) (s : AdminServerState) : Type 0 where
  pub assignment : AdminCommandAssignment
  pub answer : (assign_next_command id now s).0 ≡ ok (some assignment)
  pub head :
      waiting id s.command_deliveries
      ≡ assignment.command_id ∷ waiting id (assign_next_command id now s).1.command_deliveries

pub assign_next_command-Takes :
    (id : Text) (now : ℕ) (s : AdminServerState)
    → IsConsistent s
    → ((assign_next_command id now s ≡ (ok none, s)) × (waiting id s.command_deliveries ≡ []))
      ⊎ Takes id now s
unfolding assign_next_command command_assignment
assign_next_command-Takes id now s h =
    let ds = s.command_deliveries in
    elim (Option-cases (find_first (is_pending_for id) ds)) [
      | inl nothing ↦ inl (ground (arith, nothing), waiting-none id ds nothing)
      | inr (d, found) ↦
          let (c, at) = linked-get (is_pending_for id) s d h found in
          inr (record {
            assignment =
                command_assignment (record c { status = running; updated_at = now }) id now;
            answer = ground (arith, found, at);
            head =
                ground
                  (arith, found, at, h.named d.command_id c at, waiting-assigned id now ds d found);
          })
    ]

pub assign_next_command-others :
    (id : Text) (now : ℕ) (s : AdminServerState) (other : Text)
    → text_eq id other ≡ false
    → waiting other (assign_next_command id now s).1.command_deliveries
      ≡ waiting other s.command_deliveries
unfolding assign_next_command
assign_next_command-others id now s other apart =
    ground (arith, waiting-assigned_other id other now s.command_deliveries apart)

pub record_command_completion-waiting :
    (agent : Text) (command : ℕ) (completion : AdminCommandCompletionRequest) (now : ℕ)
    (s : AdminServerState) (id : Text)
    → waiting id (record_command_completion agent command completion now s).1.command_deliveries
      ≡ waiting id s.command_deliveries
unfolding record_command_completion
record_command_completion-waiting agent command completion now s id =
    let ds = s.command_deliveries in
    elim (Option-cases (find_first (is_delivery command agent) ds)) [
      | inl nothing ↦ ground (arith, nothing)
      | inr (d, found) ↦ elim (Bool-cases (is_status d.status running)) [
        | inr idle ↦ ground (arith, found, idle)
        | inl busy ↦ ground (
          arith,
          found,
          busy,
          waiting-completed (is_delivery command agent) id completion ds d found busy,
        )
      ]
    ]
