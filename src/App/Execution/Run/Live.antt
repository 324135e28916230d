-- ===== src/App/Execution/Run/Live.antt =====
-- About the copies of a run that a rollback finds as they were recorded.
use tidyflow.App.Files.Laws.{is_file-is_some, set_node_self}
use tidyflow.Base.Text.{Text}
use tidyflow.App.Execution.Run.Preserved.{Spares, AllSpare, AllSpare-append, revert_all-AllSpare}
use tidyflow.App.Execution.Run.{is_ignored, hash_of}
use tidyflow.App.Files.{
  Host, FilePath, Files, exists, is_file, op_remove, remove_file, set_node, file_hash,
}
use tidyflow.App.Rollback.{Item, hash_matches, revert_all, revert_item, Progress}
use tidyflow.Base.{
  ℕ, ◌+◌, ◌≡◌, Option, true, false, List, arith, ◌∷◌, ◌++◌, [], inr, inl, if◌then◌else◌, ◌⊎◌, none,
  Result-cases, ◌∙◌, ap, is_some, subst, sym,
}
use tidyflow.Domain.Job.{Job}
use tidyflow.Domain.Rollback.{NewAuditEntry, copied, ignored}

-- A copy that a rollback would take back: it is there, as it was recorded.
pub record IsLive (host : Host) (fs : Files) (item : Item) : Type 0 where
  pub status : item.status ≡ copied
  pub there : is_file (fs item.target_path) ≡ true
  pub unchanged : hash_matches host item fs ≡ true
  pub plain : item.is_directory ≡ false

-- Each item was left out, or is a live copy whose target no later item shares.
unfoldable pub AllLive : Host → Files → List Item → Type 0
AllLive host fs [] = Unit {0}
AllLive host fs (item ∷ items) =
    ((item.status ≡ ignored) ⊎ (IsLive host fs item × AllSpare item.target_path items))
    × AllLive host fs items

unfoldable pub copies : List Item → ℕ
copies [] = 0
copies (item ∷ items) = if is_ignored item.status then copies items else copies items + 1

pub copies-append :
    (items : List Item) (item : Item)
    → copies (items ++ item ∷ []) ≡ copies items + copies (item ∷ [])
unfolding copies
copies-append [] item = ground arith
copies-append (x ∷ items) item = ground (arith, copies-append items item)

hash_matches-same :
    (host : Host) (item : Item) (fs fs' : Files)
    → fs' item.target_path ≡ fs item.target_path
    → hash_matches host item fs' ≡ hash_matches host item fs
unfolding hash_matches file_hash
hash_matches-same host item fs fs' same = ground (arith, same)

-- The hash that a run records for a copy is that of the copy.
pub hash_matches-hash_of :
    (host : Host) (canonicalize : Text → Option Text)
    (append : List (NewAuditEntry FilePath) → NewAuditEntry FilePath → Option Text) (job : Job)
    (source target_dir : FilePath) (item : Item) (fs : Files)
    → item.target_hash
      ≡ hash_of host canonicalize append job source target_dir copied item.target_path fs
    → hash_matches host item fs ≡ true
unfolding hash_matches hash_of
hash_matches-hash_of host canonicalize append job source target_dir item fs recorded =
    ground (arith, recorded, Result-cases (file_hash host item.target_path fs))

IsLive-at :
    (host : Host) (fs fs' : Files) (item : Item)
    → IsLive host fs item
    → fs' item.target_path ≡ fs item.target_path
    → IsLive host fs' item
IsLive-at host fs fs' item live same = record {
  status = live.status;
  there = rw same live.there;
  unchanged = hash_matches-same host item fs fs' same ∙ live.unchanged;
  plain = live.plain;
}

IsLive-keeps :
    (host : Host) (fs fs' : Files) (item : Item)
    → IsLive host fs item
    → ((q : FilePath) → exists q fs ≡ true → fs' q ≡ fs q)
    → IsLive host fs' item
IsLive-keeps host fs fs' item live kept =
    IsLive-at host fs fs' item live
      (kept item.target_path (is_file-is_some (fs item.target_path) live.there))

-- The copies that are there stay live when what is at their targets stays.
pub AllLive-append :
    (host : Host) (fs fs' : Files) (items : List Item) (item : Item)
    → ((q : FilePath) → exists q fs ≡ true → (fs' q ≡ fs q) × Spares q item)
    → AllLive host fs items
    → (item.status ≡ ignored) ⊎ IsLive host fs' item
    → AllLive host fs' (items ++ item ∷ [])
unfolding AllLive AllSpare
AllLive-append host fs fs' [] item kept before (inl left_out) = (inl left_out, tt)
AllLive-append host fs fs' [] item kept before (inr live) = (inr (live, tt), tt)
AllLive-append host fs fs' (x ∷ items) item kept (inl left_out, before) last =
    (inl left_out, AllLive-append host fs fs' items item kept before last)
AllLive-append host fs fs' (x ∷ items) item kept (inr (live, spared), before) last =
    let (same, spares) = kept x.target_path (is_file-is_some (fs x.target_path) live.there) in
    (
      inr (
        IsLive-keeps host fs fs' x live (λ q there. (kept q there).0),
        AllSpare-append x.target_path items item spared spares,
      ),
      AllLive-append host fs fs' items item kept before last,
    )

pub AllLive-keeps :
    (host : Host) (fs fs' : Files) (items : List Item)
    → ((q : FilePath) → exists q fs ≡ true → fs' q ≡ fs q)
    → AllLive host fs items
    → AllLive host fs' items
unfolding AllLive
AllLive-keeps host fs fs' [] kept before = tt
AllLive-keeps host fs fs' (x ∷ items) kept (inl left_out, before) =
    (inl left_out, AllLive-keeps host fs fs' items kept before)
AllLive-keeps host fs fs' (x ∷ items) kept (inr (live, spared), before) = (
  inr (IsLive-keeps host fs fs' x live kept, spared),
  AllLive-keeps host fs fs' items kept before,
)

-- Nothing is left of a copy.
pub AllGone : Files → List Item → Type 0
AllGone fs [] = Unit {0}
AllGone fs (item ∷ items) =
    ((item.status ≡ ignored) ⊎ (exists item.target_path fs ≡ false)) × AllGone fs items

AllGone-set_node :
    (p : FilePath) (items : List Item) (fs : Files)
    → AllGone fs items
    → AllGone (set_node p none fs) items
unfolding AllGone set_node
AllGone-set_node p [] fs gone = tt
AllGone-set_node p (item ∷ items) fs (inl left_out, gone) =
    (inl left_out, AllGone-set_node p items fs gone)
AllGone-set_node p (item ∷ items) fs (inr free, gone) =
    (inr (ground (arith, free)), AllGone-set_node p items fs gone)

module _ (host : Host) where
  revert_item-ignored :
      (item : Item) (s : Progress)
      → item.status ≡ ignored
      → revert_item host item s ≡ record s { skipped = s.skipped + 1 }
  unfolding revert_item
  revert_item-ignored item s left_out = ground (arith, left_out)

  revert_item-live :
      (item : Item) (s : Progress)
      → ((p : FilePath) → host.denies op_remove p ≡ false)
      → IsLive host s.files item
      → revert_item host item s
        ≡ record s { files = set_node item.target_path none s.files; reverted = s.reverted + 1 }
  unfolding revert_item remove_file
  revert_item-live item s allowed live = ground (
    arith,
    live.status,
    live.there,
    live.unchanged,
    live.plain,
    allowed item.target_path,
    is_file-is_some (s.files item.target_path) live.there,
  )

  -- Reverting live copies takes each of them away.
  pub revert_all-AllGone :
      (items : List Item) (s : Progress)
      → ((p : FilePath) → host.denies op_remove p ≡ false)
      → AllLive host s.files items
      → AllGone (revert_all host items s).files items
        × ((revert_all host items s).reverted ≡ s.reverted + copies items)
  unfolding revert_all AllGone copies AllLive is_ignored
  revert_all-AllGone [] s allowed live = (tt, omega arith)
  revert_all-AllGone (item ∷ rest) s allowed (inl left_out, live) =
      let t = revert_all host rest s in
      let (gone, number) = revert_all-AllGone rest s allowed live in
      let step = revert_item-ignored item t left_out in
      let files : (revert_item host item t).files ≡ t.files = ap (λ u. u.files) step in
      let reverted : (revert_item host item t).reverted ≡ t.reverted = ap (λ u. u.reverted) step in
      (
        (inl left_out, subst (λ fs. AllGone fs rest) (sym files) gone),
        ground (arith, number, left_out, reverted),
      )
  revert_all-AllGone (item ∷ rest) s allowed (inr (one, spared), live) =
      let t = revert_all host rest s in
      let (gone, number) = revert_all-AllGone rest s allowed live in
      let same = revert_all-AllSpare host item.target_path rest s spared in
      let step = revert_item-live item t allowed (IsLive-at host s.files t.files item one same) in
      let after = set_node item.target_path none t.files in
      let files : (revert_item host item t).files ≡ after = ap (λ u. u.files) step in
      let reverted : (revert_item host item t).reverted ≡ t.reverted + 1 =
        ap (λ u. u.reverted) step in
      let free : exists item.target_path after ≡ false =
        ap is_some (set_node_self item.target_path none t.files) in
      (
        (
          inr (subst (λ fs. exists item.target_path fs ≡ false) (sym files) free),
          subst (λ fs. AllGone fs rest) (sym files)
              (AllGone-set_node item.target_path rest t.files gone),
        ),
        ground (arith, number, reverted, one.status),
      )
