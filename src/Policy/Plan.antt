-- ===== src/Policy/Plan.antt =====
-- The promote/demote loop of daemon/policy.cpp. `promote_and_demote`, `MLPolicy::execute` and
-- `HeuristicPolicy::execute` have one loop each, of the same form: they differ in the candidates
-- that are skipped and in the test that lets a candidate take a victim's place.
pub mod Rounds
pub mod Limits
pub mod Moves
pub mod Stops
pub mod Refusals
pub mod Verdicts
use os_research_codebase.Prelude.{
  ℕ, ◌≡◌, Bool, not, if◌then◌else◌, List, [], ◌∷◌, ◌++◌, Option, none, some, ℤ, pos, ltb_ℤ, ◌-ℤ◌,
  length, for_each,
}

-- The variables of the loop. `victims` is `fast_pages` from `demote_idx` on.
pub record Plan (A : Type 0) : Type 0 where
  pub to_promote : List ℕ
  pub to_demote : List ℕ
  pub free_fast_slots : ℤ
  pub victims : List A

abbrev pub empty_plan : {A : Type 0} → ℤ → List A → Plan A
empty_plan free fast_pages = record {
  to_promote = [];
  to_demote = [];
  free_fast_slots = free;
  victims = fast_pages;
}

-- `va` reads a page's address; `skip free c` is the test of the `continue`; `beats c v` says that
-- the candidate `c` may take the place of `v`; `cap` is `MAX_PROMOTIONS_PER_EPOCH`.
module _ {A : Type 0} (va : A → ℕ) (skip : ℤ → A → Bool) (beats : A → A → Bool) (cap : ℤ) where
  -- The fast tier is full: swap with the first victim, or stop.
  swap_with : Plan A → A → List A → Option (Plan A)
  swap_with plan c [] = none
  swap_with plan c (v ∷ vs) =
      if beats c v
      then some (record plan {
        to_demote = plan.to_demote ++ va v ∷ [];
        to_promote = plan.to_promote ++ va c ∷ [];
        victims = vs;
      })
      else none

  -- The test of the `for` and its body; `none` ends the loop.
  unfoldable pub plan_step : Plan A → A → Option (Plan A)
  unfolding swap_with
  plan_step plan c =
      if not (ltb_ℤ (pos (length plan.to_promote)) cap)
      then none
      else if skip plan.free_fast_slots c
      then some plan
      else if ltb_ℤ (pos 0) plan.free_fast_slots
      then some (record plan {
        to_promote = plan.to_promote ++ va c ∷ [];
        free_fast_slots = plan.free_fast_slots -ℤ pos 1;
      })
      else swap_with plan c plan.victims

  unfoldable pub make_plan : List A → Plan A → Plan A
  unfolding plan_step
  make_plan candidates plan = for_each plan_step candidates plan
