-- ===== src/Domain/Counter.antt =====
-- crates/autoflow-domain/src/counter.rs.
pub mod Format
pub mod Keys
mod Tests
use tidyflow.Domain.Error.{DomainError, validation}
use tidyflow.Base.Text.{Text, codes, msg}
use tidyflow.Base.{
  ℕ, ◌^◌, Result, if◌then◌else◌, [], ◌-◌, ◌+◌, ◌++◌, ◌==◌, suc, bail_if, length, ◌/◌, ◌∷◌, ltb,
  zero, ◌>>◌, ◌%◌, leb,
}

pub data CounterScope : Type 0 where
  global per_day per_folder per_parent : CounterScope

pub record CounterConfig : Type 0 where
  pub scope : CounterScope
  pub start : ℕ
  pub padding : ℕ

-- `i64::MAX`.
abbrev pub i64_max : ℕ
i64_max = 2 ^ 63 - 1

unfoldable pub validate : CounterConfig → Result DomainError (Unit {0})
validate c =
    bail_if (c.start == 0) (validation (msg "counter start must be at least 1"))
    >> bail_if (leb i64_max c.start) (validation (msg "counter start is too large"))
    >> bail_if (ltb 12 c.padding) (validation (msg "counter padding must be between 0 and 12"))

-- The key of a counter in the store, from the parent, the folder and the date of a file.
key_in : CounterScope → Text → Text → Text → Text
key_in global parent folder date_key = codes "global"
key_in per_day parent folder date_key = codes "day:" ++ date_key
key_in per_folder parent folder date_key = codes "folder:" ++ folder
key_in per_parent parent folder date_key = codes "parent:" ++ parent

unfoldable pub scope_key : CounterConfig → Text → Text → Text → Text
unfolding key_in
scope_key c parent folder date_key = key_in c.scope parent folder date_key

-- `u64::to_string`: the digits, the most significant first. The fuel bounds their number.
digits : ℕ → ℕ → Text
digits zero n = []
digits (suc fuel) n =
    let front = digits fuel (n / 10) in
    if ltb n 10 then (48 + n) ∷ [] else front ++ (48 + n % 10) ∷ []

unfoldable pub to_string : ℕ → Text
unfolding digits
to_string n = digits (n + 1) n

abbrev zeros : ℕ → Text
zeros zero = []
zeros (suc n) = 48 ∷ zeros n

unfoldable pub format_value : CounterConfig → ℕ → Text
unfolding to_string
format_value c value =
    if c.padding == 0
    then to_string value
    else zeros (c.padding - length (to_string value)) ++ to_string value
