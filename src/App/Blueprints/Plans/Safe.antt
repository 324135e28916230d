-- ===== src/App/Blueprints/Plans/Safe.antt =====
-- About the plans of folder blueprints that pass all checks.
use tidyflow.App.Blueprints.Folders.{FolderActionPlanItem, World, Base}
use tidyflow.App.Blueprints.Folders.Under.{ItemUnder}
use tidyflow.Domain.Blueprint.{
  Blueprint, FolderAction, FolderPlan, copy, create, delete, move, rename,
}
use tidyflow.Domain.PathPolicy.{normalize_path, path_eq}
use tidyflow.Base.Text.{Text}
use tidyflow.Base.{
  Bool, true, false, ◌&&◌, ◌||◌, ◌≡◌, not, Option, none, some, is_some, is_some_and,
}

-- What the checks make sure of, for each action, on the disk as it is when the plan is made: what the
-- earlier items of the plan will have changed by then is not looked at. A folder that is deleted is not
-- the root, is there, and is empty unless the plan allows and confirms that it is not. A folder that is
-- renamed, moved or copied has a target, and is there, or its target is. With `dry_run` nothing has to be
-- there.
abbrev pub ReadyFor :
    World → FolderPlan → Text → Bool → FolderAction → Option Text → Option Text → Type 0
ReadyFor w plan root dry_run create source target = is_some target ≡ true
ReadyFor w plan root dry_run delete none target = ⊥
ReadyFor w plan root dry_run delete (some s) target =
    (path_eq (normalize_path w.canonicalize s) (normalize_path w.canonicalize root) ≡ false)
    × ((dry_run || w.is_dir s) ≡ true)
    × ((not (w.exists s && w.has_entries s)
          || plan.allow_delete_non_empty && plan.confirm_delete_non_empty)
        ≡ true)
ReadyFor w plan root dry_run rename none target = ⊥
ReadyFor w plan root dry_run rename (some s) target =
    (is_some target ≡ true) × ((dry_run || w.is_dir s || is_some_and w.is_dir target) ≡ true)
ReadyFor w plan root dry_run move none target = ⊥
ReadyFor w plan root dry_run move (some s) target =
    (is_some target ≡ true) × ((dry_run || w.is_dir s || is_some_and w.is_dir target) ≡ true)
ReadyFor w plan root dry_run copy none target = ⊥
ReadyFor w plan root dry_run copy (some s) target =
    (is_some target ≡ true) × ((dry_run || w.is_dir s || is_some_and w.is_dir target) ≡ true)

abbrev pub ItemSafe : World → Blueprint → FolderPlan → Bool → FolderActionPlanItem → Type 0
ItemSafe w b plan dry_run i =
    ItemUnder w.canonicalize (normalize_path w.canonicalize b.root_path) i
    × ReadyFor w plan b.root_path dry_run i.action i.source i.target
