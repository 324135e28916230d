-- ===== src/Domain/Tokenizer/Transforms/Sanitized.antt =====
-- About `sanitize_windows_filename`, and what path_policy.rs asks of a file name.
use tidyflow.Domain.PathPolicy.{
  dot, dot_dot, head_or, is_invalid_char, is_reserved, validate_file_name, windows_stem,
}
use tidyflow.Domain.Tokenizer.Transforms.Sanitize.{
  replace_invalid, sanitize_windows_filename, trim_end_by,
}
use tidyflow.Base.Text.{
  Text, ascii_upper, byte_len, codes, ends_with_char, is_control, is_whitespace, split, text_eq,
  cons_head, to_ascii_uppercase, trim, trim_by, trim_start_by,
}
use tidyflow.Base.{
  ℕ, [], ◌∷◌, ◌++◌, Bool, true, false, ◌||◌, ◌==◌, ◌≡◌, ◌≤◌, inl, inr, any, arith, refl, Bool-cases,
  is_empty, map, not, ok, reverse, if◌then◌else◌, List, ◌∙◌, ap, ==_iff, ◌&&◌,
}
use mathlib.Core.List.{reverse-append}

-- A character that may stand in a name.
allowed : ℕ → Bool
allowed c = not (is_control c || is_invalid_char c)

abbrev AllAllowed : Text → Type 0
AllAllowed s = any (λ c. not (allowed c)) s ≡ false

replace-allowed : (c : ℕ) → allowed (replace_invalid c) ≡ true
unfolding allowed replace_invalid is_invalid_char is_control
replace-allowed c = ground arith

map-allowed : (s : Text) → AllAllowed (map replace_invalid s)
map-allowed [] = refl
map-allowed (c ∷ s) = ground (arith, replace-allowed c, map-allowed s)

trim_end-allowed : (p : ℕ → Bool) (s : Text) → AllAllowed s → AllAllowed (trim_end_by p s)
unfolding trim_end_by
trim_end-allowed p [] h = refl
trim_end-allowed p (c ∷ s) h = ground (arith, trim_end-allowed p s)

allowed-split :
    (s : Text) → AllAllowed s → (any is_control s ≡ false) × (any is_invalid_char s ≡ false)
unfolding allowed
allowed-split [] h = (refl, refl)
allowed-split (c ∷ s) h =
    let (a, b) = allowed-split s (ground arith) in (ground arith, ground arith)

ends-keep :
    (p : ℕ → Bool) (d c : ℕ) (rest : Text)
    → p d ≡ true
    → ends_with_char d rest ≡ false
    → ends_with_char d (if is_empty rest && p c then [] else c ∷ rest) ≡ false
unfolding ends_with_char
ends-keep p d c (y ∷ rest) taken h = h
ends-keep p d c [] taken h = elim (Bool-cases (p c)) [
  | inl off ↦ ground arith
  | inr kept ↦ elim (Bool-cases (c == d)) [
    | inr other ↦ ground arith
    | inl same ↦ let is_d : p c ≡ p d = ap p ((==_iff c d).0 same) in cc
  ]
]

-- No text that is trimmed at its end ends with a character that is taken off.
ends-trim_end :
    (p : ℕ → Bool) (d : ℕ) (s : Text) → p d ≡ true → ends_with_char d (trim_end_by p s) ≡ false
unfolding trim_end_by
ends-trim_end p d [] h = unfold ends_with_char in refl
ends-trim_end p d (c ∷ s) h = ends-keep p d c (trim_end_by p s) h (ends-trim_end p d s h)

-- A text that begins with an underscore still does when it is trimmed.
trim_start-snoc :
    (p : ℕ → Bool) (s : Text) (c : ℕ)
    → p c ≡ false
    → (t : Text) × (trim_start_by p (s ++ c ∷ []) ≡ t ++ c ∷ [])
unfolding trim_start_by
trim_start-snoc p [] c h = ([], ground arith)
trim_start-snoc p (x ∷ s) c h = elim (Bool-cases (p x)) [
  | inl off ↦ let (t, e) = trim_start-snoc p s c h in (t, ground (arith, off, e))
  | inr kept ↦ (x ∷ s, ground (arith, kept))
]

trim_by-underscore :
    (p : ℕ → Bool) (s : Text) → p b'_' ≡ false → (t : Text) × (trim_by p (b'_' ∷ s) ≡ b'_' ∷ t)
unfolding trim_by
trim_by-underscore p s h =
    let (t, e) = trim_start-snoc p (reverse s) b'_' h in
    let first : trim_start_by p (b'_' ∷ s) ≡ b'_' ∷ s = unfold trim_start_by in ground arith in
    let turned : reverse (b'_' ∷ s) ≡ reverse s ++ b'_' ∷ [] = reverse-append (b'_' ∷ []) s in
    (
      reverse t,
      ap (λ x. reverse (trim_start_by p (reverse x))) first
          ∙ ap (λ x. reverse (trim_start_by p x)) turned
          ∙ ap reverse e
          ∙ reverse-append t (b'_' ∷ []),
    )

trim-underscore : (s : Text) → (t : Text) × (trim (b'_' ∷ s) ≡ b'_' ∷ t)
unfolding trim is_whitespace
trim-underscore s = trim_by-underscore is_whitespace s refl

split-head : (s : Text) → (t : Text) × (head_or (b'_' ∷ s) (split b'.' (b'_' ∷ s)) ≡ b'_' ∷ t)
unfolding split
split-head s = by_pieces (split b'.' s)
  where
    by_pieces : (ps : List Text) → (t : Text) × (head_or (b'_' ∷ s) (cons_head b'_' ps) ≡ b'_' ∷ t)
    by_pieces [] = ([], refl)
    by_pieces (p ∷ ps) = (p, refl)

underscore-unreserved : (s : Text) → is_reserved (windows_stem (b'_' ∷ s)) ≡ false
unfolding windows_stem is_reserved
underscore-unreserved s =
    let (piece, e) = split-head s in
    let (t, trimmed) = trim-underscore piece in
    rw (e, trimmed) (unfold to_ascii_uppercase ascii_upper text_eq in refl)

not_dots : (s : Text) → ends_with_char b'.' s ≡ false → (text_eq s dot || text_eq s dot_dot) ≡ false
unfolding text_eq ends_with_char
not_dots [] h = refl
not_dots (a ∷ []) h = ground arith
not_dots (a ∷ b ∷ []) h = ground arith
not_dots (a ∷ b ∷ c ∷ s) h = ground arith

-- The name is allowed as far as path_policy.rs goes, short of its length.
record IsAllowed (s : Text) : Type 0 where
  named : is_empty s ≡ false
  no_dot : ends_with_char b'.' s ≡ false
  no_space : ends_with_char b' ' s ≡ false
  plain : AllAllowed s
  free : is_reserved (windows_stem s) ≡ false

allowed-valid : (s : Text) → IsAllowed s → byte_len s ≤ 255 → validate_file_name s ≡ ok tt
unfolding validate_file_name
allowed-valid s h short =
    let (no_control, no_invalid) = allowed-split s h.plain in
    ground
      (arith, not_dots s h.no_dot, no_control, no_invalid, h.named, h.no_dot, h.no_space, h.free)

file-IsAllowed : IsAllowed (codes "file")
unfolding allowed ends_with_char is_reserved windows_stem is_control is_invalid_char trim trim_by
    trim_start_by is_whitespace split to_ascii_uppercase text_eq
file-IsAllowed = record { named = refl; no_dot = refl; no_space = refl; plain = refl; free = refl }

chosen-IsAllowed :
    (out : Text)
    → AllAllowed out
    → ends_with_char b'.' out ≡ false
    → ends_with_char b' ' out ≡ false
    → IsAllowed (
        if is_empty out
        then codes "file"
        else if is_reserved (windows_stem out)
        then b'_' ∷ out
        else out)
chosen-IsAllowed [] plain no_dot no_space = file-IsAllowed
chosen-IsAllowed (c ∷ s) plain no_dot no_space =
    elim (Bool-cases (is_reserved (windows_stem (c ∷ s)))) [
      | inr free ↦ rw free (record {
        named = refl;
        no_dot = no_dot;
        no_space = no_space;
        plain = plain;
        free = free;
      })
      | inl taken ↦ rw taken (record {
        named = refl;
        no_dot = unfold ends_with_char in no_dot;
        no_space = unfold ends_with_char in no_space;
        plain = unfold allowed is_invalid_char is_control in plain;
        free = underscore-unreserved (c ∷ s);
      })
    ]

sanitized-IsAllowed : (input : Text) → IsAllowed (sanitize_windows_filename input)
unfolding sanitize_windows_filename
sanitized-IsAllowed input =
    let off : ℕ → Bool = λ c. c == b'.' || c == b' ' in
    let kept = map replace_invalid input in
    chosen-IsAllowed (trim_end_by off kept) (trim_end-allowed off kept (map-allowed input))
      (ends-trim_end off b'.' kept refl) (ends-trim_end off b' ' kept refl)

-- What `sanitize_windows_filename` makes of any text is a valid file name, if it is not too long: it is
-- not empty, is no reserved name, ends with neither a dot nor a space, and has no character that is
-- refused.
pub sanitize_windows_filename-valid :
    (input : Text)
    → byte_len (sanitize_windows_filename input) ≤ 255
    → validate_file_name (sanitize_windows_filename input) ≡ ok tt
sanitize_windows_filename-valid input short =
    allowed-valid (sanitize_windows_filename input) (sanitized-IsAllowed input) short
