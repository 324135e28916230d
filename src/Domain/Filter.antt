-- ===== src/Domain/Filter.antt =====
-- crates/autoflow-domain/src/filter.rs. The file system, the libraries of globs and of regular
-- expressions, and `str::to_lowercase` are the parameter `Outside`. Instants are nanoseconds.
pub mod Collected
mod Tests
use tidyflow.App.Files.{FilePath, display, dot_extension, file_name, strip_prefix}
use tidyflow.Domain.FileFilter.{
  FileFilter, SymlinkMode, copy_link, expanded_exclude_patterns, follow, skip,
}
use tidyflow.Domain.Job.{Job}
use tidyflow.Base.Sort.{sort, text_le}
use tidyflow.Base.Text.{Text, contains, starts_with, text_eq, trim}
use tidyflow.Base.{
  ℕ, List, [], ◌∷◌, ◌++◌, ◌+◌, ◌-◌, ◌*◌, ◌/◌, ◌%◌, ◌^◌, Bool, true, false, not, ◌&&◌, ◌||◌,
  if◌then◌else◌, ltb, Option, none, some, Result, ok, err, ◌>>=◌, any, is_empty, is_some_and,
  length,
}

-- What `fs::metadata` says: the size, the times of the last change and of the creation as far as they are
-- known and not before 1970, and the seconds since the last change.
pub record Metadata : Type 0 where
  pub size : ℕ
  pub modified : Option ℕ
  pub created : Option ℕ
  pub elapsed : Option ℕ

-- An entry of the walk, as the mode of links shows it.
pub record Entry : Type 0 where
  pub path : FilePath
  pub is_symlink : Bool
  pub is_file : Bool

pub record Outside : Type 0 where
  pub as_path : Text → FilePath
  pub path_exists : FilePath → Bool
  pub path_is_file : FilePath → Bool
  pub path_is_dir : FilePath → Bool
  pub metadata : FilePath → Result Text Metadata
  -- The content, read as text with what is no UTF-8 replaced.
  pub read : FilePath → Result Text Text
  pub walk : (follow_links : Bool) → FilePath → List Entry
  pub read_dir : FilePath → Result Text (List (Result Text FilePath))
  pub lowercase : Text → Text
  -- The message of the refusal of a pattern, and whether one matches.
  pub glob_error : Text → Option Text
  pub glob_match : Text → Text → Bool
  pub regex_error : Text → Option Text
  pub regex_match : Text → Text → Bool

pub record FilterEngine : Type 0 where
  pub exclude : List Text
  pub name_regex : Option Text
  pub path_regex : Option Text

-- An instant cut to its second.
whole_seconds : ℕ → ℕ
whole_seconds t = t / 10 ^ 9 * 10 ^ 9

is_skip : SymlinkMode → Bool
is_skip skip = true
is_skip follow = false
is_skip copy_link = false

is_follow : SymlinkMode → Bool
is_follow follow = true
is_follow copy_link = false
is_follow skip = false

-- The order of paths: by components.
unfoldable pub path_le : FilePath → FilePath → Bool
path_le [] q = true
path_le (s ∷ p) [] = false
path_le (s ∷ p) (t ∷ q) = let rest = path_le p q in if text_eq s t then rest else text_le s t

module _ (o : Outside) where
  open o use {
    as_path, path_exists, path_is_file, path_is_dir, metadata, read, walk, read_dir, lowercase,
    glob_error, glob_match, regex_error, regex_match,
  }

  check_globs : List Text → Result Text (List Text)
  check_globs [] = ok []
  check_globs (p ∷ ps) =
      let rest = check_globs ps in
      elim (glob_error p) [ none ↦ rest >>= λ checked. ok (p ∷ checked) | some e ↦ err e ]

  check_pattern : Option Text → Result Text (Option Text)
  check_pattern none = ok none
  check_pattern (some p) = elim (regex_error p) [ none ↦ ok (some p) | some e ↦ err e ]

  unfoldable pub from_job : Job → Result Text FilterEngine
  unfolding check_globs check_pattern
  from_job job = do
    exclude ← check_globs (expanded_exclude_patterns job.filters)
    names ← check_pattern job.filters.name_regex
    paths ← check_pattern job.filters.path_regex
    ok (record { exclude = exclude; name_regex = names; path_regex = paths })

  name_of : FilePath → Text
  name_of path = elim (file_name path) [ none ↦ [] | some name ↦ name ]

  is_hidden : FilePath → Bool
  unfolding name_of
  is_hidden path = starts_with (name_of path) (b'.' ∷ [])

  file_modified : FilePath → Option ℕ
  unfolding whole_seconds
  file_modified path = elim (metadata path) [
    | err e ↦ none
    | ok meta ↦ elim meta.modified [ none ↦ none | some t ↦ some (whole_seconds t) ]
  ]

  file_created : FilePath → Option ℕ
  unfolding whole_seconds
  file_created path = elim (metadata path) [
    | err e ↦ none
    | ok meta ↦ elim meta.created [
      | some t ↦ some (whole_seconds t)
      | none ↦ elim meta.modified [ none ↦ none | some t ↦ some (whole_seconds t) ]
    ]
  ]

  relative_depth : FilePath → FilePath → ℕ
  relative_depth root file = elim (strip_prefix root file) [
    | none ↦ 0
    | some rel ↦ (length rel - 1) % 2 ^ 32
  ]

  -- The extension with its dot, in lower case.
  extension_of : FilePath → Text
  unfolding name_of
  extension_of file = elim (dot_extension (name_of file)) [ [] ↦ [] | c ∷ ext ↦ c ∷ lowercase ext ]

  has_extension : FilePath → List Text → Bool
  unfolding extension_of
  has_extension file extensions =
      any (λ e. text_eq (lowercase (trim e)) (extension_of file)) extensions

  content_matches : FilePath → Text → FileFilter → Result Text Bool
  unfolding has_extension
  content_matches file needle filters =
      if not (is_empty filters.content_extensions)
        && not (has_extension file filters.content_extensions)
      then ok false
      else metadata file >>= λ meta.
          if ltb filters.content_max_bytes meta.size
          then ok false
          else read file >>= λ haystack. ok (contains haystack needle)

  -- The early returns over the size, the name and the times.
  refused_by_metadata : FilePath → FileFilter → FilePath → Metadata → Bool
  unfolding is_hidden file_modified file_created relative_depth
  refused_by_metadata file filters source_root meta =
      filters.skip_empty_files && ltb meta.size 1
      || not filters.include_hidden && is_hidden file
      || is_some_and (λ min. ltb meta.size min) filters.min_size_bytes
      || is_some_and (λ max. ltb max meta.size) filters.max_size_bytes
      || is_some_and (λ max. ltb max (relative_depth source_root file)) filters.max_depth
      || is_some_and (λ limit. is_some_and (λ m. ltb limit m) (file_modified file))
          filters.modified_before
      || is_some_and (λ limit. is_some_and (λ m. ltb m limit) (file_modified file))
          filters.modified_after
      || is_some_and (λ limit. is_some_and (λ c. ltb c limit) (file_created file))
          filters.created_after
      || is_some_and (λ limit. is_some_and (λ c. ltb limit c) (file_created file))
          filters.created_before
      || is_some_and (λ days. is_some_and (λ secs. ltb secs (days * 86400)) meta.elapsed)
          filters.older_than_days

  -- Those over the patterns, the extension and the regular expressions.
  refused_by_name : FilterEngine → FilePath → FileFilter → Bool
  unfolding has_extension name_of
  refused_by_name engine file filters =
      any (λ p. glob_match p (display file)) engine.exclude
      || not (is_empty filters.include_extensions)
        && not (has_extension file filters.include_extensions)
      || is_some_and (λ r. not (regex_match r (name_of file))) engine.name_regex
      || is_some_and (λ r. not (regex_match r (display file))) engine.path_regex

  unfoldable pub should_process : FilterEngine → FilePath → Job → FilePath → Result Text Bool
  unfolding refused_by_metadata refused_by_name content_matches
  should_process engine file job source_root = metadata file >>= λ meta.
      if refused_by_metadata file job.filters source_root meta
        || refused_by_name engine file job.filters
      then ok false
      else elim job.filters.content_contains [
        | none ↦ ok true
        | some needle ↦ content_matches file needle job.filters
      ]

  -- `unwrap_or(false)`.
  pub or_false : Result Text Bool → Bool
  or_false (ok b) = b
  or_false (err e) = false

  unfoldable pub should_process_file : FilePath → Job → Bool
  unfolding or_false
  should_process_file file job =
      or_false (from_job job >>= λ engine. should_process engine file job (as_path job.source_path))

  unfoldable pub accepts : FilterEngine → Job → FilePath → FilePath → Bool
  unfolding should_process or_false
  accepts engine job source file = or_false (should_process engine file job source)

  -- The loop over the entries of the walk.
  kept_walked : FilterEngine → Job → FilePath → List Entry → List FilePath
  kept_walked engine job source [] = []
  kept_walked engine job source (entry ∷ rest) =
      let others = kept_walked engine job source rest in
      if entry.is_symlink && is_skip job.filters.symlink_mode
      then others
      else if not entry.is_file
      then others
      else if accepts engine job source entry.path
      then entry.path ∷ others
      else others

  -- The loop over the entries of a directory.
  kept_listed :
      FilterEngine → Job → FilePath → List (Result Text FilePath) → Result Text (List FilePath)
  kept_listed engine job source [] = ok []
  kept_listed engine job source (err e ∷ rest) = err e
  kept_listed engine job source (ok path ∷ rest) = kept_listed engine job source rest >>= λ others.
      ok (if path_is_file path && accepts engine job source path then path ∷ others else others)

  kept_of : FilterEngine → Job → FilePath → Result Text (List FilePath)
  unfolding kept_walked kept_listed
  kept_of engine job source =
      if job.filters.recursive
      then ok (kept_walked engine job source (walk (is_follow job.filters.symlink_mode) source))
      else if path_is_dir source
      then (read_dir source >>= λ listed. kept_listed engine job source listed)
      else ok []

  collect_with : FilterEngine → Job → FilePath → Result Text (List FilePath)
  unfolding kept_of
  collect_with engine job source =
      if path_is_file source
      then ok (if accepts engine job source source then source ∷ [] else [])
      else kept_of engine job source >>= λ files. ok (sort path_le files)

  unfoldable pub collect_files : Job → Result Text (List FilePath)
  unfolding collect_with is_skip is_follow
  collect_files job =
      let source = as_path job.source_path in
      if not (path_exists source)
      then ok []
      else from_job job >>= λ engine. collect_with engine job source
