-- ===== src/Domain/Counter/Keys.antt =====
-- About the scope keys of counters.
use tidyflow.Base.Text.{Text}
use tidyflow.Domain.Counter.{
  CounterScope, key_in, scope_key, CounterConfig, global, per_day, per_folder, per_parent,
}
use tidyflow.Base.{[], ◌≡◌, ◌↔◌, arith}

-- What a scope counts by.
abbrev pub group : CounterScope → Text → Text → Text → Text
group global parent folder date_key = []
group per_day parent folder date_key = date_key
group per_folder parent folder date_key = folder
group per_parent parent folder date_key = parent

keys_differ :
    (s s' : CounterScope) (p f d p' f' d' : Text)
    → key_in s p f d ≡ key_in s' p' f' d'
    → (s ≡ s') × (group s p f d ≡ group s' p' f' d')
unfolding key_in
keys_differ s s' p f d p' f' d' e = ground arith

-- Two files share a counter exactly if the scopes are the same and so is what the scope counts by.
pub scope_key_iff :
    (c c' : CounterConfig) (p f d p' f' d' : Text)
    → (scope_key c p f d ≡ scope_key c' p' f' d')
      ↔ ((c.scope ≡ c'.scope) × (group c.scope p f d ≡ group c'.scope p' f' d'))
unfolding scope_key
scope_key_iff c c' p f d p' f' d' = (
  keys_differ c.scope c'.scope p f d p' f' d',
  λ (e : (c.scope ≡ c'.scope) × (group c.scope p f d ≡ group c'.scope p' f' d')). ground arith,
)
