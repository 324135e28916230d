-- ===== src/Server/Commands/Consistent.antt =====
-- About the status and the result of a queued command, and the deliveries that they summarise.
use tidyflow.Domain.Admin.{AdminQueuedCommand, AdminQueuedCommandStatus, pending}
use tidyflow.Server.Deliveries.{
  states_of, update_first, find_first, aggregate_command_status, command_result_from_deliveries,
}
use tidyflow.Server.Deliveries.Updates.{
  all_pending, All-mono, states_of-update_other, All-update_first, All-find_first,
}
use tidyflow.Server.State.{AdminServerState, AdminCommandDelivery, AdminCommandDeliveryState}
use tidyflow.Base.Map.{get, insert, get-insert}
use tidyflow.Base.{
  ℕ, ◌≡◌, List, ◌==◌, some, Bool, true, arith, All, is_some, if◌then◌else◌, Bool-cases,
  Option-cases, inl, inr, ==_iff, subst,
}

-- The status that a command has by its deliveries.
unfoldable pub status_for : List AdminCommandDeliveryState → AdminQueuedCommandStatus
status_for states = if all_pending states then pending else aggregate_command_status states

pub record IsSettled (c : AdminQueuedCommand) (states : List AdminCommandDeliveryState)
    : Type 0 where
  pub status : c.status ≡ status_for states
  pub result : c.result ≡ command_result_from_deliveries c.request.kind states

-- Each queued command stands under its identifier and has the status and the result that its deliveries
-- give it, and each delivery is of a queued command.
pub record IsConsistent (s : AdminServerState) : Type 0 where
  pub settled :
      (id : ℕ) (c : AdminQueuedCommand)
      → get id s.command_queue ≡ some c
      → IsSettled c (states_of id s.command_deliveries)
  pub named : (id : ℕ) (c : AdminQueuedCommand) → get id s.command_queue ≡ some c → c.id ≡ id
  pub linked : All (λ d. is_some (get d.command_id s.command_queue) ≡ true) s.command_deliveries

abbrev pub SameCommands : AdminServerState → AdminServerState → Type 0
SameCommands s t =
    (t.command_queue ≡ s.command_queue) × (t.command_deliveries ≡ s.command_deliveries)

pub IsConsistent-frame :
    (s t : AdminServerState) → SameCommands s t → IsConsistent s → IsConsistent t
IsConsistent-frame s t (queue, deliveries) h = record {
  settled = rw (queue, deliveries) h.settled;
  named = rw queue h.named;
  linked = rw (queue, deliveries) h.linked;
}

-- An insertion keeps every key that there was.
pub linked-insert :
    (id : ℕ) (c : AdminQueuedCommand) (queue : List (ℕ × AdminQueuedCommand))
    (d : AdminCommandDelivery)
    → is_some (get d.command_id queue) ≡ true
    → is_some (get d.command_id (insert id c queue)) ≡ true
linked-insert id c queue d h = ground (arith, get-insert id d.command_id c queue)

-- The command `id` got a new entry in the queue, and one of its deliveries was changed.
pub update-IsConsistent :
    (p : AdminCommandDelivery → Bool) (f : AdminCommandDelivery → AdminCommandDelivery)
    (s t : AdminServerState) (d : AdminCommandDelivery) (c : AdminQueuedCommand)
    → ((x : AdminCommandDelivery) → (f x).command_id ≡ x.command_id)
    → find_first p s.command_deliveries ≡ some d
    → t.command_deliveries ≡ update_first p f s.command_deliveries
    → t.command_queue ≡ insert d.command_id c s.command_queue
    → c.id ≡ d.command_id
    → IsSettled c (states_of d.command_id (update_first p f s.command_deliveries))
    → IsConsistent s
    → IsConsistent t
update-IsConsistent p f s t d c same_id found deliveries queue its_id here h =
    let ds = update_first p f s.command_deliveries in
    let insertion = insert d.command_id c s.command_queue in
    record {
      settled =
          rw (deliveries, queue)
            (λ id x at. elim (Bool-cases (d.command_id == id)) [
              | inl same ↦
                  let is_c : c ≡ x =
                    ground (arith, get-insert d.command_id id c s.command_queue, same, at) in
                  let is_id : d.command_id ≡ id = (==_iff d.command_id id).0 same in
                  subst (λ y. IsSettled y (states_of id ds)) is_c
                    (subst (λ k. IsSettled c (states_of k ds)) is_id here)
              | inr other ↦
                  let old : get id s.command_queue ≡ some x =
                    ground (arith, get-insert d.command_id id c s.command_queue, other, at) in
                  rw (states_of-update_other p f same_id id s.command_deliveries d found other)
                    (h.settled id x old)
            ]);
      named = rw queue (λ id x at. elim (Bool-cases (d.command_id == id)) [
        | inl same ↦ ground (arith, get-insert d.command_id id c s.command_queue, same, at, its_id)
        | inr other ↦
            h.named id x (ground (arith, get-insert d.command_id id c s.command_queue, other, at))
      ]);
      linked =
          rw (deliveries, queue)
            (All-mono (λ x. is_some (get x.command_id s.command_queue) ≡ true) _
              (linked-insert d.command_id c s.command_queue) ds
              (All-update_first (λ x. is_some (get x.command_id s.command_queue) ≡ true) p f
                (λ x held. rw (same_id x) held) s.command_deliveries h.linked));
    }

pub linked-get :
    (p : AdminCommandDelivery → Bool) (s : AdminServerState) (d : AdminCommandDelivery)
    → IsConsistent s
    → find_first p s.command_deliveries ≡ some d
    → (c : AdminQueuedCommand) × (get d.command_id s.command_queue ≡ some c)
linked-get p s d h found =
    let held =
      All-find_first (λ x. is_some (get x.command_id s.command_queue) ≡ true) p s.command_deliveries
        d h.linked found in
    elim (Option-cases (get d.command_id s.command_queue)) [
      | inl missing ↦ absurd (ground (arith, held, missing))
      | inr present ↦ present
    ]
