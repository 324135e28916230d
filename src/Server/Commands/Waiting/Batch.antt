-- ===== src/Server/Commands/Waiting/Batch.antt =====
-- About the deliveries of a batch that wait.
use tidyflow.Server.Deliveries.{is_status}
use tidyflow.Server.State.{AdminServerState}
use tidyflow.Domain.Admin.{AdminQueuedCommand}
use tidyflow.Base.TextMap.{contains_text}
use tidyflow.Server.Commands.Waiting.{waiting, waiting-append}
use tidyflow.Server.Commands.{pending_delivery, save_batch_command, is_pending_for}
use tidyflow.Server.Names.Distinct.{NoRepeat}
use tidyflow.Base.Text.{Text, text_eq, text_eq→eq}
use tidyflow.Base.{
  ℕ, List, [], ◌∷◌, ◌++◌, ◌≡◌, false, Bool-cases, inl, inr, arith, refl, map, if◌then◌else◌, any,
}

new-waits :
    (command : ℕ) (id target : Text)
    → is_pending_for id (pending_delivery command target) ≡ text_eq target id
unfolding is_pending_for pending_delivery is_status
new-waits command id target = ground arith

waiting-targets :
    (command : ℕ) (id : Text) (targets : List Text)
    → NoRepeat targets
    → waiting id (map (pending_delivery command) targets)
      ≡ (if contains_text id targets then command ∷ [] else [])
unfolding waiting contains_text
waiting-targets command id [] h = refl
waiting-targets command id (t ∷ ts) (first, rest) =
    let below = waiting-targets command id ts rest in
    let same_id : (pending_delivery command t).command_id ≡ command =
      unfold pending_delivery in refl in
    elim (Bool-cases (text_eq t id)) [
      | inr other ↦ ground (arith, new-waits command id t, other, below)
      | inl here ↦
          let is_id : t ≡ id = text_eq→eq t id here in
          let once : any (λ x. text_eq x id) ts ≡ false = rw is_id at first in
          ground (arith, new-waits command id t, here, below, once, same_id)
    ]

pub save_batch_command-waiting :
    (c : AdminQueuedCommand) (targets : List Text) (s : AdminServerState) (id : Text)
    → NoRepeat targets
    → waiting id (save_batch_command c targets s).command_deliveries
      ≡ waiting id s.command_deliveries ++ (if contains_text id targets then c.id ∷ [] else [])
unfolding save_batch_command
save_batch_command-waiting c targets s id h = ground (
  arith,
  waiting-append id s.command_deliveries (map (pending_delivery c.id) targets),
  waiting-targets c.id id targets h,
)
