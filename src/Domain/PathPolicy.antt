-- ===== src/Domain/PathPolicy.antt =====
-- crates/autoflow-domain/src/path_policy.rs, on a Unix host: the separator is `/`.
-- `dunce::canonicalize` is a parameter, which gives nothing where it fails.
pub mod Names
pub mod Roots
pub mod Samples
mod Tests
use tidyflow.Base.Text.{
  Text, contains_char, codes, to_ascii_uppercase, replace_char, starts_with, trim_by, text_eq,
  ends_with_char, trim, split, msg, byte_len, is_control,
}
use tidyflow.Base.{
  ℕ, Bool, List, Option, Result, any, ◌==◌, if◌then◌else◌, map, bail_if, ◌∷◌, ok, true, ◌++◌, [],
  is_empty, false, ◌||◌, ◌>>◌, ◌&&◌, ltb, none, some,
}

abbrev pub windows_invalid : Text
windows_invalid = codes "<>:\"/\\|?*"

abbrev pub windows_reserved : List Text
windows_reserved = map codes (
    "CON" ∷ "PRN" ∷ "AUX" ∷ "NUL" ∷ "COM1" ∷ "COM2" ∷ "COM3" ∷ "COM4" ∷ "COM5" ∷ "COM6" ∷ "COM7"
    ∷ "COM8" ∷ "COM9" ∷ "LPT1" ∷ "LPT2" ∷ "LPT3" ∷ "LPT4" ∷ "LPT5" ∷ "LPT6" ∷ "LPT7" ∷ "LPT8"
    ∷ "LPT9" ∷ "CLOCK$" ∷ [])

abbrev pub slash : ℕ
slash = b'/'

abbrev pub is_slash : ℕ → Bool
is_slash c = c == slash

-- `.` and `..`, the names with a meaning of their own.
abbrev pub dot : Text
dot = codes "."

abbrev pub dot_dot : Text
dot_dot = codes ".."

-- `name.split('.').next()`, trimmed and in upper case.
abbrev pub head_or : Text → List Text → Text
head_or d [] = d
head_or d (p ∷ ps) = p

unfoldable pub windows_stem : Text → Text
windows_stem name = to_ascii_uppercase (trim (head_or name (split b'.' name)))

unfoldable pub is_reserved : Text → Bool
is_reserved stem = any (λ r. text_eq r stem) windows_reserved

unfoldable pub is_invalid_char : ℕ → Bool
is_invalid_char c = contains_char c windows_invalid

unfoldable pub validate_file_name : Text → Result Text (Unit {0})
unfolding windows_stem is_reserved is_invalid_char
validate_file_name name =
    bail_if (is_empty name) (msg "file name is empty")
    >> bail_if (text_eq name dot || text_eq name dot_dot) (msg "invalid file name: " ++ name)
    >> bail_if (ltb 255 (byte_len name)) (msg "file name is too long: " ++ name)
    >> bail_if (ends_with_char b'.' name || ends_with_char 32 name)
        (msg "file name cannot end with a dot or space: " ++ name)
    >> bail_if (any is_control name) (msg "file name contains control characters: " ++ name)
    >> bail_if (any is_invalid_char name) (msg "file name contains invalid characters: " ++ name)
    >> bail_if (is_reserved (windows_stem name)) (msg "file name is reserved on Windows: " ++ name)

-- The loop over the components of a relative path.
validate_components : Text → List Text → Result Text (Unit {0})
validate_components path [] = ok tt
validate_components path (component ∷ rest) =
    let others = validate_components path rest in
    if is_empty component || text_eq component dot
    then others
    else bail_if (text_eq component dot_dot) (msg "relative path escapes the root: " ++ path)
      >> validate_file_name component
      >> others

-- `path.trim().replace('\\', "/")`.
pub unify_separators : Text → Text
unify_separators path = replace_char b'\\' slash (trim path)

unfoldable pub validate_relative_path : Text → Result Text (Unit {0})
unfolding unify_separators validate_components
validate_relative_path path =
    let normalized = unify_separators path in
    let inner = trim_by is_slash normalized in
    bail_if (starts_with normalized (slash ∷ [])) (msg "path must be relative: " ++ path)
    >> bail_if (is_empty inner) (msg "relative path is empty")
    >> bail_if (ltb 4096 (byte_len inner)) (msg "relative path is too long")
    >> validate_components path (split slash inner)

-- `Path::components`: no empty components, and `.` only in front of a relative path.
abbrev normal_components : List Text → List Text
normal_components [] = []
normal_components (p ∷ ps) =
    let rest = normal_components ps in if is_empty p || text_eq p dot then rest else p ∷ rest

relative_components : List Text → List Text
relative_components [] = []
relative_components (p ∷ ps) =
    if text_eq p dot then p ∷ normal_components ps else normal_components (p ∷ ps)

unfoldable pub components : Text → List Text
unfolding relative_components
components path =
    if starts_with path (slash ∷ [])
    then (slash ∷ []) ∷ normal_components (split slash path)
    else relative_components (split slash path)

-- `==` of two paths compares their components.
abbrev lists_eq : List Text → List Text → Bool
lists_eq [] [] = true
lists_eq [] (t ∷ ts) = false
lists_eq (s ∷ ss) [] = false
lists_eq (s ∷ ss) (t ∷ ts) = text_eq s t && lists_eq ss ts

unfoldable pub path_eq : Text → Text → Bool
unfolding components
path_eq p q = lists_eq (components p) (components q)

-- The root's text, with a separator at its end.
abbrev pub root_prefix : Text → Text
root_prefix root = if ends_with_char slash root then root else root ++ slash ∷ []

module _ (canonicalize : Text → Option Text) where
  unfoldable pub normalize_path : Text → Text
  normalize_path path = elim (canonicalize path) [ none ↦ path | some c ↦ c ]

  unfoldable pub is_path_under_root : Text → Text → Bool
  unfolding normalize_path
  is_path_under_root path root =
      let p = normalize_path path in
      let r = normalize_path root in if path_eq p r then true else starts_with p (root_prefix r)

  unfoldable pub is_path_authorized : Text → List Text → Bool
  unfolding is_path_under_root
  is_path_authorized path roots = any (is_path_under_root path) roots
