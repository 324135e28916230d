-- ===== src/Domain/Filter/Collected.antt =====
-- About `collect_files`.
use tidyflow.App.Files.{FilePath, same_path}
use tidyflow.App.Files.Laws.{same_path→eq}
use tidyflow.Domain.Filter.{
  Entry, FilterEngine, collect_with, Outside, accepts, collect_files, from_job, is_follow, is_skip,
  kept_listed, kept_of, kept_walked, path_le, should_process_file,
}
use tidyflow.Domain.Job.{Job}
use tidyflow.Base.Sort.{sort, text_le}
use tidyflow.Base.Sort.Sorted.{IsSorted, any-sort, sort-IsSorted}
use tidyflow.Base.Text.{Text, text_eq}
use tidyflow.Base.{
  List, [], ◌∷◌, Bool, Bool-cases, inl, inr, true, false, not, ◌&&◌, if◌then◌else◌, Result,
  Result-cases, ok, err, bind-passed, any, ◌≡◌, arith, refl, subst, ap,
}

-- Whether a path is one of these.
abbrev pub lists : FilePath → List FilePath → Bool
lists p files = any (λ q. same_path q p) files

text_le_total : (s t : Text) → text_le s t ≡ false → text_le t s ≡ true
unfolding text_le
text_le_total [] t h = ground (arith, h)
text_le_total (a ∷ s) [] h = refl
text_le_total (a ∷ s) (b ∷ t) h = ground (arith, text_le_total s t, h)

text_eq_sym : (s t : Text) → text_eq s t ≡ text_eq t s
unfolding text_eq
text_eq_sym [] [] = refl
text_eq_sym [] (b ∷ t) = refl
text_eq_sym (a ∷ s) [] = refl
text_eq_sym (a ∷ s) (b ∷ t) = ground (arith, text_eq_sym s t)

path_le_total : (p q : FilePath) → path_le p q ≡ false → path_le q p ≡ true
unfolding path_le
path_le_total [] q h = ground (arith, h)
path_le_total (s ∷ p) [] h = refl
path_le_total (s ∷ p) (t ∷ q) h =
    ground (arith, path_le_total p q, text_le_total s t, text_eq_sym s t, h)

-- The entries of a walk and of a directory that are regular files, less the links that are skipped.
walked_files : Bool → List Entry → List FilePath
walked_files skips [] = []
walked_files skips (e ∷ rest) =
    let others = walked_files skips rest in
    if e.is_file && not (e.is_symlink && skips) then e.path ∷ others else others

module _ (o : Outside) where
  listed_files : List (Result Text FilePath) → List FilePath
  listed_files [] = []
  listed_files (err e ∷ rest) = listed_files rest
  listed_files (ok path ∷ rest) =
      let others = listed_files rest in if o.path_is_file path then path ∷ others else others

  -- What a job finds in its source, before the filters.
  files_below : Job → FilePath → List FilePath
  unfolding walked_files listed_files is_skip is_follow
  files_below job source =
      if job.filters.recursive
      then walked_files (is_skip job.filters.symlink_mode)
          (o.walk (is_follow job.filters.symlink_mode) source)
      else if o.path_is_dir source
      then elim (o.read_dir source) [ err e ↦ [] | ok listed ↦ listed_files listed ]
      else []

  files_at : Job → FilePath → List FilePath
  unfolding files_below
  files_at job source = if o.path_is_file source then source ∷ [] else files_below job source

  unfoldable pub candidates : Job → List FilePath
  unfolding files_at
  candidates job =
      let source = o.as_path job.source_path in
      if o.path_exists source then files_at job source else []

  module _ (engine : FilterEngine) (job : Job) (source : FilePath) (p : FilePath) where
    accepts_same :
        (q : FilePath)
        → same_path q p ≡ true
        → accepts o engine job source q ≡ accepts o engine job source p
    accepts_same q h = ap (λ r. accepts o engine job source r) (same_path→eq q p h)

    lists-kept_walked :
        (entries : List Entry)
        → lists p (kept_walked o engine job source entries) ≡ (
            lists p (walked_files (is_skip job.filters.symlink_mode) entries)
            && accepts o engine job source p)
    unfolding kept_walked walked_files
    lists-kept_walked [] = refl
    lists-kept_walked (e ∷ rest) = ground (arith, lists-kept_walked rest, accepts_same e.path)

    lists-kept_listed :
        (listed : List (Result Text FilePath)) (files : List FilePath)
        → kept_listed o engine job source listed ≡ ok files
        → lists p files ≡ (lists p (listed_files listed) && accepts o engine job source p)
    unfolding kept_listed listed_files
    lists-kept_listed [] files h = ground (arith, h)
    lists-kept_listed (err e ∷ rest) files h = absurd (ground (arith, h))
    lists-kept_listed (ok path ∷ rest) files h =
        let (others, kept, eq) = bind-passed (kept_listed o engine job source rest) _ h in
        ground (arith, eq, lists-kept_listed rest others kept, accepts_same path)

    lists-kept_of :
        (files : List FilePath)
        → kept_of o engine job source ≡ ok files
        → lists p files ≡ (lists p (files_below job source) && accepts o engine job source p)
    unfolding kept_of files_below
    lists-kept_of files h = elim (Bool-cases job.filters.recursive) [
      | inl e ↦
          ground
            (arith, e, h, lists-kept_walked (o.walk (is_follow job.filters.symlink_mode) source))
      | inr e ↦ elim (Bool-cases (o.path_is_dir source)) [
        | inl d ↦ elim (Result-cases (o.read_dir source)) [
          | inl (listed, r) ↦ ground (arith, e, d, r, h, lists-kept_listed listed files)
          | inr (x, r) ↦ absurd (ground (arith, e, d, r, h))
        ]
        | inr d ↦ ground (arith, e, d, h)
      ]
    ]

    collect_with_iff :
        (files : List FilePath)
        → collect_with o engine job source ≡ ok files
        → (lists p files ≡ (lists p (files_at job source) && accepts o engine job source p))
          × IsSorted path_le files
    unfolding collect_with files_at
    collect_with_iff files h = elim (Bool-cases (o.path_is_file source)) [
      | inl e ↦ elim (Bool-cases (accepts o engine job source source)) [
        | inl a ↦
            let eq : (source ∷ [] ≡ files) = ground (arith, e, a, h) in
            (
              ground (arith, e, a, eq, accepts_same source),
              subst (λ fs. IsSorted path_le fs) eq (tt, tt),
            )
        | inr a ↦
            let eq : ([] ≡ files) = ground (arith, e, a, h) in
            (ground (arith, e, a, eq, accepts_same source), subst (λ fs. IsSorted path_le fs) eq tt)
      ]
      | inr e ↦ elim (Result-cases (kept_of o engine job source)) [
        | inl (kept, found) ↦
            let eq : (sort path_le kept ≡ files) = cc (e, found, h) in
            let sorted = sort-IsSorted path_le path_le_total kept in
            let listed = any-sort path_le (λ q. same_path q p) kept in
            (
              ground (arith, e, ap (λ fs. lists p fs) eq, listed, lists-kept_of kept found),
              subst (λ fs. IsSorted path_le fs) eq sorted,
            )
        | inr (x, failed) ↦ absurd (cc (e, failed, h))
      ]
    ]

  collected :
      (job : Job) (p : FilePath) (files : List FilePath) (engine : FilterEngine)
      → let source = o.as_path job.source_path in
        lists p files ≡ (lists p (files_at job source) && accepts o engine job source p)
        → candidates job ≡ files_at job source
        → should_process_file o p job ≡ accepts o engine job source p
        → lists p files ≡ (lists p (candidates job) && should_process_file o p job)
  collected job p files engine exact all same = rw (all, same) exact

  candidates-eq :
      (job : Job)
      → o.path_exists (o.as_path job.source_path) ≡ true
      → candidates job ≡ files_at job (o.as_path job.source_path)
  unfolding candidates
  candidates-eq job e = cc e

  should_process_file-eq :
      (job : Job) (p : FilePath) (engine : FilterEngine)
      → from_job o job ≡ ok engine
      → should_process_file o p job ≡ accepts o engine job (o.as_path job.source_path) p
  unfolding should_process_file accepts
  should_process_file-eq job p engine made = cc made

  -- The files that `collect_files` returns are sorted, and a path is among them exactly if it is among
  -- the regular files that the walk or the listing of the job's source gives, or is the source, and
  -- `should_process_file` accepts it.
  pub collect_files_iff :
      (job : Job) (files : List FilePath) (p : FilePath)
      → collect_files o job ≡ ok files
      → (lists p files ≡ (lists p (candidates job) && should_process_file o p job))
        × IsSorted path_le files
  unfolding collect_files candidates should_process_file
  collect_files_iff job files p h =
      let source = o.as_path job.source_path in
      elim (Bool-cases (o.path_exists source)) [
        | inl e ↦ elim (Result-cases (from_job o job)) [
          | inl (engine, made) ↦
              let (exact, sorted) = collect_with_iff engine job source p files (cc (e, made, h)) in
              (
                collected job p files engine exact (candidates-eq job e)
                    (should_process_file-eq job p engine made),
                sorted,
              )
          | inr (x, refused) ↦ absurd (cc (e, refused, h))
        ]
        | inr e ↦
            let eq : ([] ≡ files) = cc (e, h) in
            (ground (arith, e, eq), subst (λ fs. IsSorted path_le fs) eq tt)
      ]
