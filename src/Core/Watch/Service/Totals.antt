-- ===== src/Core/Watch/Service/Totals.antt =====
-- What the runs add up to, by the weight of each.
use tidyflow.Core.Watch.Service.{BlueprintRun, replace_run, run_at}
use tidyflow.Base.{ℕ, zero, suc, List, [], ◌∷◌, ◌++◌, ◌+◌, ◌≡◌, some, arith}

module _ (weight : BlueprintRun → ℕ) where
  unfoldable pub total : List BlueprintRun → ℕ
  total [] = 0
  total (r ∷ rs) = weight r + total rs

  total-++ : (rs qs : List BlueprintRun) → total (rs ++ qs) ≡ total rs + total qs
  unfolding total
  total-++ [] qs = ground arith
  total-++ (r ∷ rs) qs = ground (arith, total-++ rs qs)

  pub total-replace_run :
      (i : ℕ) (new : List BlueprintRun) (r : BlueprintRun) (rs : List BlueprintRun)
      → run_at i rs ≡ some r
      → total (replace_run i new rs) + weight r ≡ total new + total rs
  unfolding total replace_run run_at
  total-replace_run i new r [] h = absurd (ground (arith, h))
  total-replace_run zero new r (q ∷ rs) h = ground (arith, h, total-++ new rs)
  total-replace_run (suc i) new r (q ∷ rs) h = ground (arith, total-replace_run i new r rs h)
