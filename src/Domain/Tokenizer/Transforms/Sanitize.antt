-- ===== src/Domain/Tokenizer/Transforms/Sanitize.antt =====
-- `sanitize_windows_filename` of crates/autoflow-domain/src/tokenizer/mod.rs.
use tidyflow.Domain.PathPolicy.{is_reserved, windows_stem}
use tidyflow.Base.Text.{Text, codes, contains_char, is_control}
use tidyflow.Base.{ℕ, [], ◌∷◌, Bool, ◌&&◌, ◌||◌, ◌==◌, if◌then◌else◌, map, is_empty}

-- The characters that Windows refuses in a name.
abbrev pub invalid_chars : Text
invalid_chars = codes "<>:\"/\\|?*"

unfoldable pub replace_invalid : ℕ → ℕ
replace_invalid c = if contains_char c invalid_chars || is_control c then b'_' else c

-- `trim_end_matches`.
unfoldable pub trim_end_by : (ℕ → Bool) → Text → Text
trim_end_by p [] = []
trim_end_by p (c ∷ s) = let rest = trim_end_by p s in if is_empty rest && p c then [] else c ∷ rest

unfoldable pub sanitize_windows_filename : Text → Text
unfolding replace_invalid trim_end_by
sanitize_windows_filename input =
    let out = trim_end_by (λ c. c == b'.' || c == b' ') (map replace_invalid input) in
    if is_empty out
    then codes "file"
    else if is_reserved (windows_stem out)
    then b'_' ∷ out
    else out
