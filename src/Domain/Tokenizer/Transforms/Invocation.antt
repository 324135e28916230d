-- ===== src/Domain/Tokenizer/Transforms/Invocation.antt =====
-- The calls of transforms, of crates/autoflow-domain/src/tokenizer/mod.rs: their arguments, and the
-- three that cut characters.
use tidyflow.Domain.Tokenizer.{normalize_identifier}
use tidyflow.Domain.Counter.{to_string}
use tidyflow.Base.Text.{Text, codes, ends_with_char, msg, split, trim}
use tidyflow.Base.TextMap.{contains_text}
use tidyflow.Base.{
  ℕ, zero, suc, List, [], ◌∷◌, ◌++◌, ◌+◌, ◌-◌, ◌*◌, ◌^◌, ◌&&◌, ◌||◌, ◌==◌, not, if◌then◌else◌, leb,
  ltb, map, is_empty, length, Option, none, some, Result, ok, err, ◌>>=◌, ◌>>◌, bail_if,
}

pub data TokenError : Type 0 where
  unknown_token unknown_transform unknown_regex_preset invalid_transform regex : Text → TokenError

-- The texts of the errors.
unfoldable pub error_text : TokenError → Text
error_text (unknown_token t) = msg "unknown token: " ++ t
error_text (unknown_transform t) = msg "unknown transform: " ++ t
error_text (unknown_regex_preset t) = msg "unknown regex preset: " ++ t
error_text (invalid_transform t) = msg "invalid transform: " ++ t
error_text (regex t) = msg "regex error: " ++ t

-- A call of a transform.
pub record TransformInvocation : Type 0 where
  pub raw : Text
  pub name : Text
  pub args : List Text

-- The text before the first parenthesis and the one behind it.
cut_open : ℕ → Option (Text × Text) → Option (Text × Text)
cut_open c none = none
cut_open c (some (a, b)) = some (c ∷ a, b)

find_open : Text → Option (Text × Text)
unfolding cut_open
find_open [] = none
find_open (c ∷ s) = let rest = find_open s in if c == b'(' then some ([], s) else cut_open c rest

drop_last : Text → Text
drop_last [] = []
drop_last (c ∷ []) = []
drop_last (c ∷ d ∷ s) = c ∷ drop_last (d ∷ s)

nonempty : List Text → List Text
nonempty [] = []
nonempty (t ∷ ts) = let rest = nonempty ts in if is_empty t then rest else t ∷ rest

invocation_of : Text → Option (Text × Text) → Result TokenError TransformInvocation
unfolding nonempty drop_last
invocation_of trimmed none =
    ok (record { raw = trimmed; name = normalize_identifier trimmed; args = [] })
invocation_of trimmed (some (before, behind)) =
    if not (ends_with_char b')' trimmed)
    then err (invalid_transform trimmed)
    else ok (record {
      raw = trimmed;
      name = normalize_identifier (trim before);
      args = nonempty (map trim (split b',' (drop_last behind)));
    })

unfoldable pub parse_invocation : Text → Result TokenError TransformInvocation
unfolding invocation_of find_open
parse_invocation raw =
    if is_empty (trim raw)
    then err (invalid_transform (msg "empty transform"))
    else invocation_of (trim raw) (find_open (trim raw))

unfoldable pub require_no_args : TransformInvocation → Result TokenError (Unit {0})
require_no_args i =
    bail_if (not (is_empty i.args)) (invalid_transform (i.raw ++ msg " does not accept arguments"))

require_arg_range : TransformInvocation → ℕ → ℕ → Result TokenError (Unit {0})
require_arg_range i min max =
    bail_if (ltb (length i.args) min || ltb max (length i.args))
      (invalid_transform (i.raw ++ msg " expects " ++ to_string min ++ msg " argument(s)"))

-- `parse::<usize>` on a machine of 64 bits: digits, behind a sign or not.
digits_from : ℕ → Text → Option ℕ
digits_from n [] = some n
digits_from n (c ∷ s) =
    let rest = digits_from (n * 10 + (c - b'0')) s in
    if leb b'0' c && leb c b'9' then rest else none

within : Option ℕ → Option ℕ
within none = none
within (some n) = if ltb n (2 ^ 64) then some n else none

parse_digits : Text → Option ℕ
unfolding digits_from within
parse_digits [] = none
parse_digits (c ∷ s) = within (digits_from 0 (c ∷ s))

parse_usize : Text → Option ℕ
unfolding parse_digits
parse_usize [] = none
parse_usize (c ∷ s) = if c == b'+' then parse_digits s else parse_digits (c ∷ s)

nth : ℕ → List Text → Option Text
nth n [] = none
nth zero (t ∷ ts) = some t
nth (suc n) (t ∷ ts) = nth n ts

parse_usize_arg : TransformInvocation → ℕ → Result TokenError ℕ
unfolding nth parse_usize
parse_usize_arg i index = elim (nth index i.args) [
  | none ↦ err (invalid_transform i.raw)
  | some arg ↦ elim (parse_usize arg) [ none ↦ err (invalid_transform i.raw) | some n ↦ ok n ]
]

pub data Direction : Type 0 where
  start end : Direction

abbrev start_names : List Text
start_names = map codes ("start" ∷ "from_start" ∷ "left" ∷ "front" ∷ "begin" ∷ "beginning" ∷ [])

abbrev end_names : List Text
end_names = map codes ("end" ∷ "from_end" ∷ "right" ∷ "back" ∷ "last" ∷ [])

parse_direction_arg : Option Text → Result TokenError Direction
parse_direction_arg none = ok start
parse_direction_arg (some arg) =
    if contains_text (normalize_identifier arg) start_names
    then ok start
    else if contains_text (normalize_identifier arg) end_names
    then ok end
    else err (invalid_transform (msg "unknown direction: " ++ arg))

unfoldable pub take : ℕ → Text → Text
take zero s = []
take (suc n) [] = []
take (suc n) (c ∷ s) = c ∷ take n s

unfoldable pub skip : ℕ → Text → Text
skip zero s = s
skip (suc n) [] = []
skip (suc n) (c ∷ s) = skip n s

take_side : Direction → ℕ → Text → Text
unfolding take skip
take_side start count input = take count input
take_side end count input = skip (length input - count) input

skip_side : Direction → ℕ → Text → Text
unfolding take skip
skip_side start count input = skip count input
skip_side end count input = take (length input - count) input

unfoldable pub take_chars : Text → TransformInvocation → Result TokenError Text
unfolding require_arg_range parse_usize_arg parse_direction_arg take_side nth
take_chars input i = do
  require_arg_range i 1 2
  count ← parse_usize_arg i 0
  direction ← parse_direction_arg (nth 1 i.args)
  ok (take_side direction count input)

unfoldable pub skip_chars : Text → TransformInvocation → Result TokenError Text
unfolding require_arg_range parse_usize_arg parse_direction_arg skip_side nth
skip_chars input i = do
  require_arg_range i 1 2
  count ← parse_usize_arg i 0
  direction ← parse_direction_arg (nth 1 i.args)
  ok (skip_side direction count input)

unfoldable pub slice_chars : Text → TransformInvocation → Result TokenError Text
unfolding require_arg_range parse_usize_arg take skip
slice_chars input i = do
  require_arg_range i 2 2
  from ← parse_usize_arg i 0
  to ← parse_usize_arg i 1
  ok (if leb to from then [] else take (to - from) (skip from input))
