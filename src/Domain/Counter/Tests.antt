-- ===== src/Domain/Counter/Tests.antt =====
-- The counter's theorems at a counter with padding.
use tidyflow.Base.Text.{codes}
use tidyflow.Domain.Counter.{CounterConfig, format_value, per_folder, per_day}
use tidyflow.Domain.Counter.Format.{read_from, format_value-read}
use tidyflow.Base.{◌≡◌, refl}

abbrev padded : CounterConfig
padded = record { scope = per_day; start = 1; padding = 4 }

abbrev by_folder : CounterConfig
by_folder = record { scope = per_folder; start = 1; padding = 0 }

padded_text : format_value padded 42 ≡ codes "0042"
unfolding format_value
padded_text = refl

format_value-read_example : read_from 0 (format_value padded 42) ≡ 42
format_value-read_example = format_value-read padded 42
