-- ===== src/Base/Int.antt =====
-- Signed integers: `negsuc n` is -(n + 1).
use tidyflow.Base.{ℕ}

pub data ℤ : Type 0 where
  pos : ℕ → ℤ
  negsuc : ℕ → ℤ

-- `max(0)`.
abbrev pub pos_part : ℤ → ℕ
pos_part (pos n) = n
pos_part (negsuc n) = 0
