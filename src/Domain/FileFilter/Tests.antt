-- ===== src/Domain/FileFilter/Tests.antt =====
-- The expansion's theorem at a filter that selects a preset.
use tidyflow.Domain.FileFilter.Presets.{in_presets, expanded_exclude_patterns_iff}
use tidyflow.Base.Text.{codes}
use tidyflow.Domain.FileFilter.{
  FileFilter, holds, default_filter, expanded_exclude_patterns, built_in_exclude_presets,
}
use tidyflow.Base.{◌∷◌, ◌≡◌, [], ◌||◌}

abbrev no_builds : FileFilter
no_builds = record default_filter {
  exclude_patterns = codes "*.bak" ∷ [];
  exclude_preset_ids = codes "build" ∷ [];
}

expanded_exclude_patterns_iff_example :
    holds (codes "**/dist/**") (expanded_exclude_patterns no_builds) ≡ (
      holds (codes "**/dist/**") no_builds.exclude_patterns
      || in_presets no_builds.exclude_preset_ids built_in_exclude_presets (codes "**/dist/**"))
expanded_exclude_patterns_iff_example = expanded_exclude_patterns_iff no_builds (codes "**/dist/**")
