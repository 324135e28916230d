-- ===== src/Domain/PathPolicy/Tests.antt =====
-- The path policy's theorems at small paths.
use tidyflow.Domain.PathPolicy.Names.{
  resolve, validate_file_name-component, validate_relative_path-inside,
}
use tidyflow.Domain.PathPolicy.Roots.{is_path_under_root-overlap}
use tidyflow.Domain.PathPolicy.Samples.{canon, canon-IsCanonical}
use tidyflow.Base.Text.{
  split, Text, codes, trim_by, ends_with_char, starts_with, text_eq, byte_len, utf8_width,
  is_control, trim, to_ascii_uppercase, replace_char,
}
use tidyflow.Domain.PathPolicy.{
  is_path_under_root, slash, validate_file_name, is_slash, dot, path_eq, unify_separators, dot_dot,
  validate_relative_path,
}
use tidyflow.Base.{List, All, ◌≡◌, ok, ◌∷◌, true, [], ◌⊎◌, ◌≢◌, ◌++◌, refl}

validate_file_name-component_example :
    (split slash (codes "report..v2.pdf") ≡ codes "report..v2.pdf" ∷ [])
    × (codes "report..v2.pdf" ≢ [])
    × (codes "report..v2.pdf" ≢ dot)
    × (codes "report..v2.pdf" ≢ dot_dot)
validate_file_name-component_example = validate_file_name-component (codes "report..v2.pdf") (
    unfold validate_file_name text_eq byte_len utf8_width ends_with_char is_control split trim
      to_ascii_uppercase in
    refl)

validate_relative_path-inside_example :
    (names : List Text) × All (λ n. validate_file_name n ≡ ok tt) names
    × (resolve
          (codes "root" ∷ [])
          (split slash (trim_by is_slash (unify_separators (codes "docs\\v2/"))))
        ≡ names ++ codes "root" ∷ [])
validate_relative_path-inside_example =
    validate_relative_path-inside (codes "docs\\v2/") (codes "root" ∷ []) (
      unfold validate_relative_path validate_file_name text_eq byte_len utf8_width ends_with_char
        is_control split trim to_ascii_uppercase starts_with replace_char in
      refl)

is_path_under_root-overlap_example :
    (is_path_under_root canon (codes "/a/b") (codes "/a") ≡ true)
    ⊎ (is_path_under_root canon (codes "/a") (codes "/a/b") ≡ true)
is_path_under_root-overlap_example =
    is_path_under_root-overlap canon canon-IsCanonical (codes "/a/b/c") (codes "/a/b") (codes "/a")
      (codes "/a/b/c") (codes "/a/b") (codes "/a") (unfold canon in refl) (unfold canon in refl)
      (unfold canon in refl)
      (unfold is_path_under_root canon path_eq starts_with split text_eq ends_with_char in refl)
      (unfold is_path_under_root canon path_eq starts_with split text_eq ends_with_char in refl)
