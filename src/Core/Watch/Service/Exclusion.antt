-- ===== src/Core/Watch/Service/Exclusion.antt =====
-- About `blueprint_busy` and the runs that are at work.
use tidyflow.Core.Watch.Service.Totals.{total, total-replace_run}
use tidyflow.Core.Watch.Service.{
  BlueprintRun, LoopAt, NormalizedWatchEvent, WatchAction, WatchState, act, act_all, begin_run,
  begins, blueprint_triggered, end_from, end_step, ends, folder_created, init,
  is_blueprint_suppressed, job_triggered, loop_from, loop_step, loops, queues, receive,
  receive_blueprint, receives, released, released_of, run_at, sends, working,
}
use tidyflow.Base.Map.{mem, mem-delete}
use tidyflow.Base.{
  ℕ, List, [], ◌∷◌, ◌≡◌, ◌≤◌, Bool-cases, inl, inr, Option-cases, some, refl, subst, sym,
  if◌then◌else◌, ◌==◌, arith,
}

is_work : ℕ → BlueprintRun → ℕ
is_work id r = elim r.phase [ working ↦ if r.blueprint_id == id then 1 else 0 | released ↦ 0 ]

-- The runs of a blueprint that are at work.
unfoldable pub working_runs : ℕ → List BlueprintRun → ℕ
unfolding is_work total
working_runs id rs = total (is_work id) rs

unfoldable pub IsExclusive : WatchState → Type 0
IsExclusive s = (id : ℕ) → working_runs id s.runs ≡ (if mem id s.blueprint_busy then 1 else 0)

receive_blueprint-IsExclusive :
    (now id : ℕ) (s : WatchState) → IsExclusive s → IsExclusive (receive_blueprint now id s)
unfolding IsExclusive receive_blueprint
receive_blueprint-IsExclusive now id s h k =
    elim (Bool-cases (is_blueprint_suppressed now id s.blueprint_suppressed_until).0) [
      | inl e ↦ ground (arith, e, h k)
      | inr e ↦ ground (arith, e, h k)
    ]

receive-IsExclusive :
    (now exec : ℕ) (e : NormalizedWatchEvent) (s : WatchState)
    → IsExclusive s
    → IsExclusive (receive now exec e s)
unfolding receive IsExclusive
receive-IsExclusive now exec (job_triggered job) s h = h
receive-IsExclusive now exec (blueprint_triggered id) s h = receive_blueprint-IsExclusive now id s h
receive-IsExclusive now exec (folder_created id path name) s h =
    receive_blueprint-IsExclusive now id s h

begin_run-IsExclusive : (id : ℕ) (s : WatchState) → IsExclusive s → IsExclusive (begin_run id s)
unfolding begin_run IsExclusive working_runs mem
begin_run-IsExclusive id s h k = ground (arith, h k, h id)

loop_from-IsExclusive :
    (at : LoopAt) (channel : List NormalizedWatchEvent) (now exec : ℕ) (s : WatchState)
    → IsExclusive s
    → IsExclusive (loop_from at channel now exec s)
unfolding loop_from IsExclusive
loop_from-IsExclusive (begins id) channel now exec s h = begin_run-IsExclusive id s h
loop_from-IsExclusive receives [] now exec s h = h
loop_from-IsExclusive receives (e ∷ rest) now exec s h =
    receive-IsExclusive now exec e (record s { channel = rest }) h

end_from-IsExclusive :
    (now i : ℕ) (r : BlueprintRun) (s : WatchState)
    → run_at i s.runs ≡ some r
    → IsExclusive s
    → IsExclusive (end_from now i (some r) s)
unfolding end_from released_of total IsExclusive working_runs is_work
end_from-IsExclusive now i r s at h k =
    let gone = total-replace_run (is_work k) i [] r s.runs at in
    let left = total-replace_run (is_work k) i (released_of r ∷ []) r s.runs at in
    ground (arith, gone, left, h k, mem-delete r.blueprint_id k s.blueprint_busy)

end_step-IsExclusive : (now i : ℕ) (s : WatchState) → IsExclusive s → IsExclusive (end_step now i s)
unfolding end_step end_from
end_step-IsExclusive now i s h = elim (Option-cases (run_at i s.runs)) [
  | inl e ↦ subst (λ o. IsExclusive (end_from now i o s)) (sym e) h
  | inr (r, e) ↦
      subst (λ o. IsExclusive (end_from now i o s)) (sym e) (end_from-IsExclusive now i r s e h)
]

act-IsExclusive : (a : WatchAction) (s : WatchState) → IsExclusive s → IsExclusive (act a s)
unfolding act loop_step IsExclusive
act-IsExclusive (sends e) s h = h
act-IsExclusive (loops now exec) s h = loop_from-IsExclusive s.loop s.channel now exec s h
act-IsExclusive (ends now i) s h = end_step-IsExclusive now i s h
act-IsExclusive (queues a) s h = h

pub act_all-IsExclusive :
    (actions : List WatchAction) (s : WatchState) → IsExclusive s → IsExclusive (act_all actions s)
unfolding act_all
act_all-IsExclusive [] s h = h
act_all-IsExclusive (a ∷ rest) s h = act_all-IsExclusive rest (act a s) (act-IsExclusive a s h)

-- Whatever the watchers send, the loop receives and the runs do, from the start on and in any order,
-- of each blueprint at most one run is at work, and one is exactly while the blueprint is in
-- `blueprint_busy`.
pub at_work-once :
    (actions : List WatchAction)
    → let s = act_all actions init in
      (id : ℕ)
      → (working_runs id s.runs ≡ (if mem id s.blueprint_busy then 1 else 0))
        × (working_runs id s.runs ≤ 1)
unfolding IsExclusive init working_runs mem
at_work-once actions id =
    let h = act_all-IsExclusive actions init (λ k. refl) id in (h, ground (arith, h))
