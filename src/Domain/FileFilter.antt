-- ===== src/Domain/FileFilter.antt =====
-- crates/autoflow-domain/src/file_filter.rs. Instants are nanoseconds.
pub mod Presets
mod Tests
use tidyflow.Base.Text.{Text, codes, text_eq}
use tidyflow.Base.{
  ℕ, List, [], none, Bool, Option, ◌*◌, map, any, ◌∷◌, true, if◌then◌else◌, ◌++◌, false,
}

pub data SymlinkMode : Type 0 where
  follow copy_link skip : SymlinkMode

pub record FileFilter : Type 0 where
  pub include_extensions : List Text
  pub exclude_patterns : List Text
  pub exclude_preset_ids : List Text
  pub name_regex : Option Text
  pub path_regex : Option Text
  pub min_size_bytes : Option ℕ
  pub max_size_bytes : Option ℕ
  pub max_depth : Option ℕ
  pub modified_after : Option ℕ
  pub modified_before : Option ℕ
  pub created_after : Option ℕ
  pub created_before : Option ℕ
  pub older_than_days : Option ℕ
  pub content_contains : Option Text
  pub content_max_bytes : ℕ
  pub content_extensions : List Text
  pub recursive : Bool
  pub include_hidden : Bool
  pub symlink_mode : SymlinkMode
  pub skip_empty_files : Bool

unfoldable pub default_filter : FileFilter
default_filter = record {
  include_extensions = [];
  exclude_patterns = [];
  exclude_preset_ids = [];
  name_regex = none;
  path_regex = none;
  min_size_bytes = none;
  max_size_bytes = none;
  max_depth = none;
  modified_after = none;
  modified_before = none;
  created_after = none;
  created_before = none;
  older_than_days = none;
  content_contains = none;
  content_max_bytes = 5 * 1024 * 1024;
  content_extensions =
      map codes (".txt" ∷ ".md" ∷ ".csv" ∷ ".json" ∷ ".log" ∷ ".xml" ∷ ".yaml" ∷ ".yml" ∷ []);
  recursive = true;
  include_hidden = false;
  symlink_mode = follow;
  skip_empty_files = false;
}

unfoldable pub built_in_exclude_presets : List (Text × List Text)
built_in_exclude_presets =
    (codes "node_modules", map codes ("**/node_modules/**" ∷ []))
    ∷ (codes "git", map codes ("**/.git/**" ∷ "**/.gitignore" ∷ []))
    ∷ (codes "temp", map codes ("**/temp/**" ∷ "**/tmp/**" ∷ "**/*.tmp" ∷ []))
    ∷ (codes "system", map codes ("**/Thumbs.db" ∷ "**/.DS_Store" ∷ "**/desktop.ini" ∷ []))
    ∷ (
      codes "build",
      map codes ("**/target/**" ∷ "**/dist/**" ∷ "**/build/**" ∷ "**/bin/**" ∷ "**/obj/**" ∷ []),
    )
    ∷ []

-- `list.iter().any(|x| x == p)`.
unfoldable pub holds : Text → List Text → Bool
holds p list = any (λ x. text_eq x p) list

-- The inner loop: the patterns of a preset that are not there yet are pushed.
push_new : List Text → List Text → List Text
push_new patterns [] = patterns
push_new patterns (p ∷ ps) = push_new (if holds p patterns then patterns else patterns ++ p ∷ []) ps

-- The outer loop over the presets.
push_presets : List Text → List (Text × List Text) → List Text → List Text
unfolding push_new
push_presets ids [] patterns = patterns
push_presets ids ((id, ps) ∷ presets) patterns =
    push_presets ids presets (if holds id ids then push_new patterns ps else patterns)

unfoldable pub expanded_exclude_patterns : FileFilter → List Text
unfolding push_presets
expanded_exclude_patterns f =
    push_presets f.exclude_preset_ids built_in_exclude_presets f.exclude_patterns
