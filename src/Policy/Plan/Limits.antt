-- ===== src/Policy/Plan/Limits.antt =====
-- How many pages a plan moves: the batch cap and the room in the fast tier.
use os_research_codebase.Prelude.{
  ℕ, ◌+◌, ◌≤◌, ◌≡◌, Bool, List, [], ◌∷◌, ℤ, pos, pos_part, neg_part, -ℤ_parts, ltb_ℤ, true, sym,
  subst, arith, length, length-append,
}
use os_research_codebase.Policy.Plan.{Plan, empty_plan, make_plan}
use os_research_codebase.Policy.Plan.Rounds.{Round, make_plan_inv}

-- `free` is the number of free slots before the loop.
pub record WithinLimits {A : Type 0} (free cap : ℤ) (plan : Plan A) : Type 0 where
  pub balanced :
      length plan.to_promote + pos_part plan.free_fast_slots + neg_part free
      ≡ length plan.to_demote + pos_part free + neg_part plan.free_fast_slots
  pub kept : neg_part plan.free_fast_slots ≤ neg_part free
  pub fell :
      pos_part plan.free_fast_slots + neg_part free ≤ pos_part free + neg_part plan.free_fast_slots
  pub capped : length plan.to_promote ≤ pos_part cap

module _ {A : Type 0} (va : A → ℕ) (skip : ℤ → A → Bool) (beats : A → A → Bool) (cap : ℤ) where
  Round-WithinLimits :
      (free : ℤ) (plan : Plan A) (c : A) (plan' : Plan A)
      → WithinLimits free cap plan
      → ltb_ℤ (pos (length plan.to_promote)) cap ≡ true
      → Round va skip beats plan c plan'
      → WithinLimits free cap plan'
  Round-WithinLimits free plan c plan' w room (Round.skips e s) =
      subst (WithinLimits free cap) (sym e) w
  Round-WithinLimits free plan c plan' w room (Round.fills e s f) =
      subst (WithinLimits free cap) (sym e) (
        ground
          (arith, length-append plan.to_promote (va c ∷ []), -ℤ_parts plan.free_fast_slots (pos 1)))
  Round-WithinLimits free plan c plan' w room (Round.swaps v vs e ev b s f) =
      subst (WithinLimits free cap) (sym e) (
        ground (
          arith,
          length-append plan.to_promote (va c ∷ []),
          length-append plan.to_demote (va v ∷ []),
        ))

  pub make_plan-WithinLimits :
      (candidates victims : List A) (free : ℤ)
      → WithinLimits free cap (make_plan va skip beats cap candidates (empty_plan free victims))
  make_plan-WithinLimits candidates victims free =
      make_plan_inv va skip beats cap (WithinLimits free cap) (Round-WithinLimits free) candidates
        (empty_plan free victims) (omega arith)
