-- ===== src/Server/Commands/Waiting.antt =====
-- About the deliveries that wait for an agent, in the order in which it will get them.
pub mod Batch
pub mod Taken
use tidyflow.Domain.Admin.{AdminCommandCompletionRequest, running}
use tidyflow.Server.State.{AdminCommandDelivery}
use tidyflow.Server.Commands.{count_if, is_pending_for, assigned, completed_by}
use tidyflow.Server.Deliveries.{
  find_first, update_first, is_status, completion_status_to_command_status,
}
use tidyflow.Base.Text.{Text, text_eq, text_eq→eq}
use tidyflow.Base.{
  ℕ, ◌≡◌, List, [], ◌∷◌, ◌++◌, some, none, true, false, arith, refl, length, if◌then◌else◌, Bool,
}

unfoldable pub waiting : Text → List AdminCommandDelivery → List ℕ
waiting id [] = []
waiting id (d ∷ ds) =
    let rest = waiting id ds in if is_pending_for id d then d.command_id ∷ rest else rest

pub count_if-waiting :
    (id : Text) (ds : List AdminCommandDelivery)
    → count_if (is_pending_for id) ds ≡ length (waiting id ds)
unfolding count_if waiting
count_if-waiting id [] = refl
count_if-waiting id (d ∷ ds) = ground (arith, count_if-waiting id ds)

pub waiting-append :
    (id : Text) (xs ys : List AdminCommandDelivery)
    → waiting id (xs ++ ys) ≡ waiting id xs ++ waiting id ys
unfolding waiting
waiting-append id [] ys = refl
waiting-append id (x ∷ xs) ys = ground (arith, waiting-append id xs ys)

pub waiting-none :
    (id : Text) (ds : List AdminCommandDelivery)
    → find_first (is_pending_for id) ds ≡ none
    → waiting id ds ≡ []
unfolding waiting find_first
waiting-none id [] e = refl
waiting-none id (d ∷ ds) e = ground (arith, waiting-none id ds)

assigned-closed :
    (id : Text) (now : ℕ) (d : AdminCommandDelivery) → is_pending_for id (assigned now d) ≡ false
unfolding is_pending_for assigned is_status
assigned-closed id now d = ground arith

pub waiting-assigned :
    (id : Text) (now : ℕ) (ds : List AdminCommandDelivery) (d : AdminCommandDelivery)
    → find_first (is_pending_for id) ds ≡ some d
    → waiting id ds ≡ d.command_id ∷ waiting id (update_first (is_pending_for id) (assigned now) ds)
unfolding waiting find_first update_first
waiting-assigned id now [] d e = cc
waiting-assigned id now (x ∷ ds) d e =
    ground (arith, assigned-closed id now x, waiting-assigned id now ds d)

-- A delivery that waits for one agent does not wait for another.
one_agent :
    (id other : Text) (d : AdminCommandDelivery)
    → text_eq id other ≡ false
    → is_pending_for id d ≡ true
    → is_pending_for other d ≡ false
unfolding is_pending_for
one_agent id other d apart here =
    let same : d.target_instance_id ≡ id = text_eq→eq d.target_instance_id id (ground arith) in
    ground (arith, same, apart)

pub waiting-assigned_other :
    (id other : Text) (now : ℕ) (ds : List AdminCommandDelivery)
    → text_eq id other ≡ false
    → waiting other (update_first (is_pending_for id) (assigned now) ds) ≡ waiting other ds
unfolding waiting update_first
waiting-assigned_other id other now [] apart = refl
waiting-assigned_other id other now (x ∷ ds) apart = ground (
  arith,
  assigned-closed other now x,
  one_agent id other x apart,
  waiting-assigned_other id other now ds apart,
)

completed-closed :
    (id : Text) (completion : AdminCommandCompletionRequest) (d : AdminCommandDelivery)
    → is_pending_for id (completed_by completion d) ≡ false
unfolding is_pending_for completed_by completion_status_to_command_status is_status
completed-closed id completion d = ground arith

pub running-not_pending :
    (id : Text) (d : AdminCommandDelivery)
    → is_status d.status running ≡ true
    → is_pending_for id d ≡ false
unfolding is_pending_for is_status
running-not_pending id d busy = ground arith

-- What a completion changes did not wait.
pub waiting-completed :
    (p : AdminCommandDelivery → Bool) (id : Text) (completion : AdminCommandCompletionRequest)
    (ds : List AdminCommandDelivery) (d : AdminCommandDelivery)
    → find_first p ds ≡ some d
    → is_status d.status running ≡ true
    → waiting id (update_first p (completed_by completion) ds) ≡ waiting id ds
unfolding waiting find_first update_first
waiting-completed p id completion [] d e busy = refl
waiting-completed p id completion (x ∷ ds) d e busy = ground (
  arith,
  completed-closed id completion x,
  running-not_pending id d busy,
  waiting-completed p id completion ds d,
)
