-- ===== src/Prelude/Loops.antt =====
-- A `for` over a collection whose body may `break`, and the rule for its invariants.
use mathlib.Core.Path.{◌≡◌}
use mathlib.Core.List.{List, [], ◌∷◌}
use mathlib.Core.Option.{Option, none, some}
use os_research_codebase.Prelude.Tests.{Option-cases}
use mathlib.Core.Logic.{inl, inr}

module _ {ℓ κ} {S : Type ℓ} {A : Type κ} where
  -- The body gives the state to go on with; `none` is a `break`, which leaves the state alone.
  unfoldable pub for_each : (S → A → Option S) → List A → S → S
  for_each body [] s = s
  for_each body (x ∷ xs) s = elim (body s x) [ none ↦ s | some s' ↦ for_each body xs s' ]

  -- What every round keeps holds at the end.
  pub for_each_inv {ι} :
      (P : S → Type ι) (body : S → A → Option S)
      → ((s : S) (x : A) (s' : S) → P s → body s x ≡ some s' → P s')
      → (xs : List A) (s : S) → P s
      → P (for_each body xs s)
  unfolding for_each
  for_each_inv P body step [] s p = p
  for_each_inv P body step (x ∷ xs) s p = elim (Option-cases (body s x)) [
    | inl e ↦ rw (e, for_each) p
    | inr (s', e) ↦ rw (e, for_each) (for_each_inv P body step xs s' (step s x s' p e))
  ]
