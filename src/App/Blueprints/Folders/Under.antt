-- ===== src/App/Blueprints/Folders/Under.antt =====
-- About the paths of the items of a folder plan.
use tidyflow.App.Blueprints.Folders.{
  Base, FolderActionPlan, FolderActionPlanItem, World, collect_folder_action_nodes, is_delete,
  children_ignored, context_of, evaluate_folder_template, join_given, node_item, or_parent,
  safe_join,
}
use tidyflow.App.Blueprints.Paths.{
  ResolvedFolderActionPaths, join_path, resolve_folder_action_paths,
}
use tidyflow.Domain.Blueprint.{FolderAction, FolderActionNodes, no_nodes, node, nodes}
use tidyflow.Domain.PathPolicy.{is_path_under_root, is_slash}
use tidyflow.Base.Text.{Text, msg, trim_by}
use tidyflow.Base.{
  ℕ, [], ◌∷◌, ◌++◌, ◌+◌, true, ◌≡◌, bind-passed, arith, subst, if◌then◌else◌, All, All-append,
  Bool-cases, inl, inr, Option, none, some, ok,
}

-- A path that an item has lies under the root.
abbrev pub IsUnder : (Text → Option Text) → Text → Option Text → Type 0
IsUnder canonicalize root none = Unit {0}
IsUnder canonicalize root (some path) = is_path_under_root canonicalize path root ≡ true

abbrev pub ItemUnder : (Text → Option Text) → Text → FolderActionPlanItem → Type 0
ItemUnder canonicalize root i =
    IsUnder canonicalize root i.source × IsUnder canonicalize root i.target

module _ (w : World) where
  safe_join-Under :
      (base root rel p : Text)
      → safe_join w base root rel ≡ ok p
      → is_path_under_root w.canonicalize p root ≡ true
  unfolding safe_join
  safe_join-Under base root rel p h =
      elim (Bool-cases (is_path_under_root w.canonicalize (join_path base rel) root)) [
        | inl under ↦ let same : join_path base rel ≡ p = ground (arith, under) in rw same at under
        | inr escapes ↦ absurd (ground (arith, escapes))
      ]

  join_given-Under :
      (base root : Text) (rel o : Option Text)
      → join_given w base root rel ≡ ok o
      → IsUnder w.canonicalize root o
  join_given-Under base root rel none h = tt
  join_given-Under base root none (some p) h = unfold join_given in cc
  join_given-Under base root (some rel) (some p) h =
      safe_join-Under base root rel p (unfold join_given in ground arith)

  node_item-Under :
      (b : Base) (parent : Text) (index : ℕ) (action : FolderAction) (name source target : Text)
      (item : FolderActionPlanItem) (resolved : ResolvedFolderActionPaths)
      → node_item w b parent index action name source target ≡ ok (item, resolved)
      → ItemUnder w.canonicalize b.canonical_root item
  unfolding node_item
  node_item-Under b parent index action name source target item resolved h =
      let ctx = context_of w b parent index in
      let (name', e1, h1) =
        bind-passed {S = Text} (evaluate_folder_template w name ctx (msg "name")) _ h in
      let (source', e2, h2) =
        bind-passed {S = Text} (evaluate_folder_template w source ctx (msg "source")) _ h1 in
      let (target', e3, h3) =
        bind-passed {S = Text} (evaluate_folder_template w target ctx (msg "target")) _ h2 in
      let (paths, e4, h4) =
        bind-passed {S = ResolvedFolderActionPaths}
          (resolve_folder_action_paths action parent name' source' target') _ h3 in
      let (from, e5, h5) =
        bind-passed {S = Option Text} (join_given w b.base b.canonical_root paths.source_rel) _
          h4 in
      let (to, e6, h6) =
        bind-passed {S = Option Text} (join_given w b.base b.canonical_root paths.target_rel) _
          h5 in
      let is_from : from ≡ item.source = ground arith in
      let is_to : to ≡ item.target = ground arith in
      (
        rw is_from at (join_given-Under b.base b.canonical_root paths.source_rel from e5),
        rw is_to at (join_given-Under b.base b.canonical_root paths.target_rel to e6),
      )

  -- Every path in the items that are collected lies under the root.
  pub collect_folder_action_nodes-Under :
      (b : Base) (parent : Text) (index : ℕ) (ns : FolderActionNodes) (p : FolderActionPlan)
      → collect_folder_action_nodes w b parent index ns ≡ ok p
      → All (ItemUnder w.canonicalize b.canonical_root) p.items
  unfolding collect_folder_action_nodes
  collect_folder_action_nodes-Under b parent index no_nodes p h =
      let none_yet : [] ≡ p.items = ground arith in
      subst (All (ItemUnder w.canonicalize b.canonical_root)) none_yet tt
  collect_folder_action_nodes-Under b parent index
        (nodes (node action name source target children) rest) p h =
      let (made, e1, h1) =
        bind-passed {S = FolderActionPlanItem × ResolvedFolderActionPaths}
          (node_item w b parent index action name source target) _ h in
      let inner = trim_by is_slash (or_parent parent made.1.target_rel) in
      let (below, e2, h2) =
        bind-passed {S = FolderActionPlan}
          (if is_delete action
            then ok (record { items = []; warnings = children_ignored children made.1 })
            else collect_folder_action_nodes w b inner 1 children)
          _ h1 in
      let (after, e3, h3) =
        bind-passed {S = FolderActionPlan} (collect_folder_action_nodes w b parent (index + 1) rest)
          _ h2 in
      let items : made.0 ∷ below.items ++ after.items ≡ p.items = ground arith in
      let P = ItemUnder w.canonicalize b.canonical_root in
      let first = node_item-Under b parent index action name source target made.0 made.1 e1 in
      let rest_under = collect_folder_action_nodes-Under b parent (index + 1) rest after e3 in
      let children_under : All P below.items = elim (Bool-cases (is_delete action)) [
        | inl gone ↦
            let none_yet : [] ≡ below.items = ground (arith, e2, gone) in subst (All P) none_yet tt
        | inr kept ↦
            collect_folder_action_nodes-Under b inner 1 children below (ground (arith, e2, kept))
      ] in
      subst (All P) items
        (All-append P (made.0 ∷ below.items) after.items (first, children_under) rest_under)
