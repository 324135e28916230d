-- ===== src/Server/Commands/Batch.antt =====
-- About `save_batch_command`.
use tidyflow.Server.Commands.Consistent.{IsConsistent, IsSettled, status_for, linked-insert}
use tidyflow.Domain.Admin.{AdminQueuedCommand, pending}
use tidyflow.Base.Text.{Text}
use tidyflow.Server.Commands.{save_batch_command, pending_delivery}
use tidyflow.Server.Deliveries.{
  states_of, target_results, is_status, command_result_from_deliveries,
}
use tidyflow.Server.Deliveries.Updates.{all_pending, states_of-append, All-mono}
use tidyflow.Server.State.{AdminServerState, AdminCommandDelivery}
use mathlib.Core.List.{append-nil}
use mathlib.Core.List.{append-nil}
use tidyflow.Base.Map.{get, insert, get-insert}
use tidyflow.Base.{
  ℕ, ◌≡◌, List, [], ◌∷◌, ◌++◌, ◌==◌, none, some, true, false, arith, refl, All, is_some, Bool-cases,
  inl, inr, ==_iff, map, All-append, subst,
}

unlinked :
    (id : ℕ) (queue : List (ℕ × AdminQueuedCommand)) (ds : List AdminCommandDelivery)
    → get id queue ≡ none
    → All (λ d. is_some (get d.command_id queue) ≡ true) ds
    → states_of id ds ≡ []
unfolding states_of
unlinked id queue [] fresh h = refl
unlinked id queue (d ∷ ds) fresh (first, rest) = elim (Bool-cases (d.command_id == id)) [
  | inr other ↦ ground (arith, other, unlinked id queue ds fresh rest)
  | inl same ↦
      let here = (==_iff d.command_id id).0 same in absurd (ground (arith, rw here at first))
]

batch_states :
    (id j : ℕ) (targets : List Text)
    → (all_pending (states_of j (map (pending_delivery id) targets)) ≡ true)
      × (target_results (states_of j (map (pending_delivery id) targets)) ≡ [])
      × ((id == j) ≡ false → states_of j (map (pending_delivery id) targets) ≡ [])
unfolding states_of pending_delivery target_results is_status
batch_states id j [] = (refl, refl, λ other. refl)
batch_states id j (t ∷ targets) =
    let (pend, empty, others) = batch_states id j targets in
    (ground arith, ground arith, λ other. ground (arith, other, others other))

linked-batch :
    (id : ℕ) (c : AdminQueuedCommand) (queue : List (ℕ × AdminQueuedCommand)) (targets : List Text)
    → All
        (λ d. is_some (get d.command_id (insert id c queue)) ≡ true)
        (map (pending_delivery id) targets)
unfolding pending_delivery
linked-batch id c queue [] = tt
linked-batch id c queue (t ∷ targets) =
    (ground (arith, get-insert id id c queue), linked-batch id c queue targets)

pub save_batch_command-IsConsistent :
    (c : AdminQueuedCommand) (targets : List Text) (s : AdminServerState)
    → get c.id s.command_queue ≡ none
    → c.status ≡ pending
    → c.result ≡ none
    → IsConsistent s
    → IsConsistent (save_batch_command c targets s)
unfolding save_batch_command
save_batch_command-IsConsistent c targets s fresh waits empty h =
    let ds = s.command_deliveries in
    let more = map (pending_delivery c.id) targets in
    record {
      settled = λ id found at.
          let (pend, none_yet, others) = batch_states c.id id targets in
          elim (Bool-cases (c.id == id)) [
            | inl same ↦
                let here : c.id ≡ id = (==_iff c.id id).0 same in
                let is_c : c ≡ found =
                  ground (arith, get-insert c.id id c s.command_queue, same, at) in
                let before : states_of id ds ≡ [] =
                  unlinked id s.command_queue ds (rw here at fresh) h.linked in
                let states : states_of id (ds ++ more) ≡ states_of id more =
                  ground (arith, states_of-append id ds more, before) in
                let now_settled : IsSettled c (states_of id more) = record {
                  status = unfold status_for in ground (arith, pend, waits);
                  result = unfold command_result_from_deliveries in ground (arith, none_yet, empty);
                } in
                rw states (subst (λ x. IsSettled x (states_of id more)) is_c now_settled)
            | inr other ↦
                let old : get id s.command_queue ≡ some found =
                  ground (arith, get-insert c.id id c s.command_queue, other, at) in
                let states : states_of id (ds ++ more) ≡ states_of id ds = ground (
                  arith,
                  states_of-append id ds more,
                  others other,
                  append-nil (states_of id ds),
                ) in
                rw states (h.settled id found old)
          ];
      named = λ id found at. elim (Bool-cases (c.id == id)) [
        | inl same ↦ ground (arith, get-insert c.id id c s.command_queue, same, at)
        | inr other ↦
            h.named id found (ground (arith, get-insert c.id id c s.command_queue, other, at))
      ];
      linked =
          All-append (λ d. is_some (get d.command_id (insert c.id c s.command_queue)) ≡ true) ds
            more
            (All-mono (λ d. is_some (get d.command_id s.command_queue) ≡ true) _
              (linked-insert c.id c s.command_queue) ds h.linked)
            (linked-batch c.id c s.command_queue targets);
    }
