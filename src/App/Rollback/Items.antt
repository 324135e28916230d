-- ===== src/App/Rollback/Items.antt =====
-- About the loop of a rollback over the items of a manifest.
use tidyflow.App.Rollback.{revert_all, revert_item, Item, Progress}
use tidyflow.App.Files.{Host}
use tidyflow.Base.{List, ◌+◌, ◌≡◌, length, suc, arith, ◌∷◌, []}

module _ (host : Host) where
  revert_item-counts :
      (item : Item) (s : Progress)
      → (revert_item host item s).reverted + (revert_item host item s).skipped
        ≡ suc (s.reverted + s.skipped)
  unfolding revert_item
  revert_item-counts item s = ground arith

  -- Every item is counted once, as reverted or as skipped.
  pub revert_all-counts :
      (items : List Item) (s : Progress)
      → (revert_all host items s).reverted + (revert_all host items s).skipped
        ≡ length items + (s.reverted + s.skipped)
  unfolding revert_all
  revert_all-counts [] s = omega arith
  revert_all-counts (item ∷ rest) s =
      omega (arith, revert_item-counts item (revert_all host rest s), revert_all-counts rest s)
