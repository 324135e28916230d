-- ===== src/Server/Runs/Fifo.antt =====
-- The order in which the agents get the commands of the batches: what the requests put at the end of an
-- agent's queue, and what they take from its front.
pub mod Steps
pub mod History
use tidyflow.Base.TextMap.{contains_text}
use tidyflow.Server.Commands.{assign_next_command}
use tidyflow.Domain.Admin.{AdminBatchCommandAccepted, AdminCommandAssignment}
use tidyflow.Domain.Admin.Envelope.{command}
use tidyflow.Server.Routes.{Details, enqueue_batch_command_route}
use tidyflow.Server.State.{AdminServerError, AdminServerState}
use tidyflow.Base.{Result, Option, List, ℕ, ◌∷◌, err, ◌++◌, [], ok, if◌then◌else◌, some, none}
use tidyflow.Base.Text.{Text, trim, text_eq}
use tidyflow.Server.Calls.{Transport, verify_envelope}
use tidyflow.Server.Runs.{Request, handle, polls, batches}

unfoldable pub given_by : Text → Result AdminServerError AdminBatchCommandAccepted → List ℕ
given_by id (err e) = []
given_by id (ok b) =
    if contains_text id b.resolved_target_instance_ids then b.command.id ∷ [] else []

unfoldable pub taken_by : Result AdminServerError (Option AdminCommandAssignment) → List ℕ
taken_by (err e) = []
taken_by (ok none) = []
taken_by (ok (some a)) = a.command_id ∷ []

module _ (h : Transport) (j : Details) where
  -- The command of an accepted batch that has the agent among its targets.
  unfoldable pub gives : Text → Request → AdminServerState → List ℕ
  gives id (batches now new_id audit_id header r) s =
      given_by id (enqueue_batch_command_route h j now new_id audit_id header r s).0
  gives id _ s = []

  -- The command that is assigned by a poll of the agent that passes the checks.
  unfoldable pub hands : Text → Request → AdminServerState → List ℕ
  hands id (polls now nonce path e) s =
      let taken = taken_by (assign_next_command (trim path) now s).0 in
      elim (verify_envelope h.crypto h.poll_vec command s (trim path) e now) [
        | err x ↦ []
        | ok secret ↦ if text_eq (trim path) id then taken else []
      ]
  hands id _ s = []

  unfoldable pub all_given : Text → List Request → AdminServerState → List ℕ
  all_given id [] s = []
  all_given id (r ∷ rs) s = gives id r s ++ all_given id rs (handle h j r s)

  unfoldable pub all_handed : Text → List Request → AdminServerState → List ℕ
  all_handed id [] s = []
  all_handed id (r ∷ rs) s = hands id r s ++ all_handed id rs (handle h j r s)
