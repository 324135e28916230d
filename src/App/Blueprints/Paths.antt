-- ===== src/App/Blueprints/Paths.antt =====
-- The relative paths of a folder action in crates/autoflow-application/src/blueprints.rs.
use tidyflow.Domain.Blueprint.{FolderAction, copy, create, delete, move, rename}
use tidyflow.Domain.Error.{DomainError, validation}
use tidyflow.Domain.PathPolicy.{is_slash, slash, validate_relative_path}
use tidyflow.Base.Text.{Text, ends_with_char, msg, replace_char, split, starts_with, trim, trim_by}
use tidyflow.Base.{
  List, [], ◌∷◌, ◌++◌, Bool, true, false, ◌&&◌, ◌||◌, if◌then◌else◌, is_empty, Option, none, some,
  Result, ok, err, ◌>>=◌, ◌>>◌, bail_if,
}

join_parts : List Text → Text
join_parts [] = []
join_parts (p ∷ []) = p
join_parts (p ∷ q ∷ ps) = p ++ slash ∷ join_parts (q ∷ ps)

nonblank : List Text → List Text
nonblank [] = []
nonblank (p ∷ ps) = let rest = nonblank ps in if is_empty (trim p) then rest else p ∷ rest

unfoldable pub normalize_relative_display : Text → Text
unfolding join_parts nonblank
normalize_relative_display path =
    join_parts (nonblank (split slash (trim_by is_slash (replace_char b'\\' slash (trim path)))))

unfoldable pub join_relative : Text → Text → Text
join_relative parent child = normalize_relative_display (parent ++ slash ∷ child)

failed : Result Text (Unit {0}) → Bool
failed (ok u) = false
failed (err e) = true

unfoldable pub relative_path_invalid : Text → Bool
unfolding failed
relative_path_invalid relative = failed (validate_relative_path relative)

pub record ResolvedFolderActionPaths : Type 0 where
  pub source_rel : Option Text
  pub target_rel : Option Text

paths : Option Text → Option Text → Result DomainError ResolvedFolderActionPaths
paths source target = ok (record { source_rel = source; target_rel = target })

abbrev or_name : Text → Text → Text
or_name given name = if is_empty given then name else given

-- The paths of an action, with the normalised name, source and target.
action_paths :
    FolderAction → Text → Text → Text → Text → Result DomainError ResolvedFolderActionPaths
unfolding paths
action_paths create parent name source target =
    paths none (some (join_relative parent (or_name target name)))
action_paths rename parent name source target =
    bail_if (is_empty name) (validation (msg "rename folder action requires a new name"))
    >> paths (some (join_relative parent (or_name source name)))
        (some (join_relative parent (or_name target name)))
action_paths move parent name source target =
    bail_if (is_empty source) (validation (msg "move/copy folder action requires source path"))
    >> bail_if (is_empty target && is_empty name)
        (validation (msg "move/copy folder action requires target path or name"))
    >> paths (some (join_relative parent source))
        (some (join_relative parent (or_name target name)))
action_paths copy parent name source target =
    bail_if (is_empty source) (validation (msg "move/copy folder action requires source path"))
    >> bail_if (is_empty target && is_empty name)
        (validation (msg "move/copy folder action requires target path or name"))
    >> paths (some (join_relative parent source))
        (some (join_relative parent (or_name target name)))
action_paths delete parent name source target =
    bail_if (is_empty source && is_empty name)
      (validation (msg "delete folder action requires source path"))
    >> paths (some (join_relative parent (or_name source name))) none

check_rel : Option Text → Result DomainError (Unit {0})
check_rel none = ok tt
check_rel (some rel) =
    bail_if (relative_path_invalid rel) (validation (msg "invalid relative folder path: " ++ rel))

unfoldable pub resolve_folder_action_paths :
    FolderAction → Text → Text → Text → Text → Result DomainError ResolvedFolderActionPaths
unfolding action_paths check_rel
resolve_folder_action_paths action parent name source target =
    action_paths action parent (normalize_relative_display name) (normalize_relative_display source)
      (normalize_relative_display target)
    >>= λ p. check_rel p.source_rel >> check_rel p.target_rel >> ok p

-- `Path::join` of a relative path.
unfoldable pub join_path : Text → Text → Text
join_path base relative =
    if is_empty base || ends_with_char slash base || starts_with relative (slash ∷ [])
    then (if starts_with relative (slash ∷ []) then relative else base ++ relative)
    else base ++ slash ∷ relative
