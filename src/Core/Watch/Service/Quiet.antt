-- ===== src/Core/Watch/Service/Quiet.antt =====
-- About `blueprint_suppressed_until` and the end of a run.
use tidyflow.Core.Watch.Service.Totals.{total, total-replace_run}
use tidyflow.Core.Watch.Service.{
  BlueprintRun, LoopAt, NormalizedWatchEvent, WatchAction, WatchState, act, act_all, begin_run,
  begins, blueprint_triggered, end_from, end_step, ends, folder_created, is_blueprint_suppressed,
  job_triggered, loop_from, loop_step, loops, queues, receive, receive_blueprint, receives,
  released, released_of, run_at, sends, suppressed_by, suppression,
}
use tidyflow.Base.Map.{get, get-insert, get-remove}
use tidyflow.Base.{
  ℕ, List, [], ◌∷◌, ◌+◌, ◌≡◌, Bool, inl, inr, Option-cases, some, true, false, refl, subst, sym,
  if◌then◌else◌, ◌==◌, ltb, ◌&&◌, arith,
}

is_of : ℕ → BlueprintRun → ℕ
is_of id r = if r.blueprint_id == id then 1 else 0

-- The runs of a blueprint, at work or not suppressed yet.
unfoldable pub runs_of : ℕ → List BlueprintRun → ℕ
unfolding is_of total
runs_of id rs = total (is_of id) rs

-- The loop has let an event of the blueprint pass, and enters it in `blueprint_busy` next.
unfoldable pub is_beginning : ℕ → LoopAt → Bool
is_beginning id receives = false
is_beginning id (begins k) = k == id

-- The loop's steps all take place before an instant.
unfoldable pub all_before : ℕ → List WatchAction → Bool
all_before until [] = true
all_before until (loops now exec ∷ rest) = ltb now until && all_before until rest
all_before until (sends e ∷ rest) = all_before until rest
all_before until (ends now i ∷ rest) = all_before until rest
all_before until (queues a ∷ rest) = all_before until rest

all_before-split :
    (until : ℕ) (a : WatchAction) (rest : List WatchAction)
    → all_before until (a ∷ rest) ≡ true
    → (all_before until (a ∷ []) ≡ true) × (all_before until rest ≡ true)
unfolding all_before
all_before-split until (sends e) rest h = (refl, h)
all_before-split until (loops now exec) rest h = ground (arith, h)
all_before-split until (ends now i) rest h = (refl, h)
all_before-split until (queues a) rest h = (refl, h)

record IsQuiet (id until : ℕ) (s : WatchState) : Type 0 where
  none_runs : runs_of id s.runs ≡ 0
  suppressed : get id s.blueprint_suppressed_until ≡ some until
  none_begins : is_beginning id s.loop ≡ false

module _ (id until : ℕ) where
  get_same :
      (table : List (ℕ × ℕ)) (k : ℕ)
      → get id table ≡ some until
      → (k == id) ≡ true
      → get k table ≡ some until
  get_same table k h e = subst (λ j. get j table ≡ some until) (ground (arith, e)) h

  receive_blueprint-IsQuiet :
      (now k : ℕ) (s : WatchState)
      → ltb now until ≡ true
      → IsQuiet id until s
      → IsQuiet id until (receive_blueprint now k s)
  unfolding receive_blueprint is_blueprint_suppressed suppressed_by is_beginning
  receive_blueprint-IsQuiet now k s before h =
      let table = s.blueprint_suppressed_until in
      let same = get_same table k h.suppressed in
      elim (Option-cases (get k table)) [
        | inl e ↦ record {
          none_runs = ground (arith, e, h.none_runs);
          suppressed = ground (arith, e, h.suppressed);
          none_begins = ground (arith, e, same);
        }
        | inr (u, e) ↦ record {
          none_runs = ground (arith, e, h.none_runs);
          suppressed = ground (arith, e, h.suppressed, same, before, get-remove k id table);
          none_begins = ground (arith, e, h.none_begins, same, before);
        }
      ]

  receive-IsQuiet :
      (now exec : ℕ) (e : NormalizedWatchEvent) (s : WatchState)
      → ltb now until ≡ true
      → IsQuiet id until s
      → IsQuiet id until (receive now exec e s)
  unfolding receive
  receive-IsQuiet now exec (job_triggered job) s before h = record {
    none_runs = h.none_runs;
    suppressed = h.suppressed;
    none_begins = h.none_begins;
  }
  receive-IsQuiet now exec (blueprint_triggered k) s before h =
      receive_blueprint-IsQuiet now k s before h
  receive-IsQuiet now exec (folder_created k path name) s before h =
      receive_blueprint-IsQuiet now k s before h

  begin_run-IsQuiet :
      (k : ℕ) (s : WatchState)
      → s.loop ≡ begins k
      → IsQuiet id until s
      → IsQuiet id until (begin_run k s)
  unfolding begin_run runs_of total is_of is_beginning
  begin_run-IsQuiet k s at h =
      let other = subst (λ l. is_beginning id l ≡ false) at h.none_begins in
      record {
        none_runs = ground (arith, h.none_runs, other);
        suppressed = ground (arith, h.suppressed);
        none_begins = ground arith;
      }

  loop_from-IsQuiet :
      (at : LoopAt) (channel : List NormalizedWatchEvent) (now exec : ℕ) (s : WatchState)
      → s.loop ≡ at
      → ltb now until ≡ true
      → IsQuiet id until s
      → IsQuiet id until (loop_from at channel now exec s)
  unfolding loop_from
  loop_from-IsQuiet (begins k) channel now exec s at before h = begin_run-IsQuiet k s at h
  loop_from-IsQuiet receives [] now exec s at before h = h
  loop_from-IsQuiet receives (e ∷ rest) now exec s at before h =
      receive-IsQuiet now exec e (record s { channel = rest }) before
        (record { none_runs = h.none_runs; suppressed = h.suppressed; none_begins = h.none_begins })

  end_from-IsQuiet :
      (now i : ℕ) (r : BlueprintRun) (s : WatchState)
      → run_at i s.runs ≡ some r
      → IsQuiet id until s
      → IsQuiet id until (end_from now i (some r) s)
  unfolding end_from runs_of total is_of
  end_from-IsQuiet now i r s at h =
      let gone = total-replace_run (is_of id) i [] r s.runs at in
      let left = total-replace_run (is_of id) i (released_of r ∷ []) r s.runs at in
      record {
        none_runs = ground (arith, gone, left, h.none_runs);
        suppressed = ground (
          arith,
          gone,
          left,
          h.none_runs,
          h.suppressed,
          get-insert r.blueprint_id id (now + suppression) s.blueprint_suppressed_until,
        );
        none_begins = ground (arith, h.none_begins);
      }

  act-IsQuiet :
      (a : WatchAction) (s : WatchState)
      → all_before until (a ∷ []) ≡ true
      → IsQuiet id until s
      → IsQuiet id until (act a s)
  unfolding act all_before loop_step end_step end_from
  act-IsQuiet (sends e) s before h = record {
    none_runs = h.none_runs;
    suppressed = h.suppressed;
    none_begins = h.none_begins;
  }
  act-IsQuiet (loops now exec) s before h =
      loop_from-IsQuiet s.loop s.channel now exec s refl (ground (arith, before)) h
  act-IsQuiet (ends now i) s before h = elim (Option-cases (run_at i s.runs)) [
    | inl e ↦ subst (λ o. IsQuiet id until (end_from now i o s)) (sym e) h
    | inr (r, e) ↦
        subst (λ o. IsQuiet id until (end_from now i o s)) (sym e) (end_from-IsQuiet now i r s e h)
  ]
  act-IsQuiet (queues a) s before h = record {
    none_runs = h.none_runs;
    suppressed = h.suppressed;
    none_begins = h.none_begins;
  }

  act_all-IsQuiet :
      (actions : List WatchAction) (s : WatchState)
      → all_before until actions ≡ true
      → IsQuiet id until s
      → IsQuiet id until (act_all actions s)
  unfolding act_all
  act_all-IsQuiet [] s before h = h
  act_all-IsQuiet (a ∷ rest) s before h =
      let (first, others) = all_before-split until a rest before in
      act_all-IsQuiet rest (act a s) others (act-IsQuiet a s first h)

-- When the last run of a blueprint has ended at some instant, and the loop has not let another event of
-- it pass, then whatever the watchers send and the loop and other runs do, nothing of the blueprint
-- runs as long as the loop's instants are less than two seconds later.
pub end_step-quiet :
    (actions : List WatchAction) (s : WatchState) (now i id : ℕ)
    → run_at i s.runs ≡ some (record { blueprint_id = id; phase = released })
    → runs_of id s.runs ≡ 1
    → is_beginning id s.loop ≡ false
    → all_before (now + suppression) actions ≡ true
    → runs_of id (act_all actions (end_step now i s)).runs ≡ 0
unfolding runs_of is_of total end_step end_from
end_step-quiet actions s now i id at once other before =
    let r : BlueprintRun = record { blueprint_id = id; phase = released } in
    let gone = total-replace_run (is_of id) i [] r s.runs at in
    let until = now + suppression in
    let h : IsQuiet id until (end_from now i (some r) s) = record {
      none_runs = ground (arith, gone, once);
      suppressed = ground (arith, get-insert id id until s.blueprint_suppressed_until);
      none_begins = other;
    } in
    (act_all-IsQuiet id until actions (end_step now i s) before
      (subst (λ o. IsQuiet id until (end_from now i o s)) (sym at) h)).none_runs
