-- ===== src/Policy/Capacity.antt =====
-- What carrying out a plan does to the fast tier: it grows past its capacity by no more than the
-- demotions that fail.
use mathlib.Core.List.{Perm, map-append}
use Prim.Native.Nat.{max}
use os_research_codebase.Prelude.{
  ℕ, ◌+◌, ◌≤◌, ◌≡◌, Bool, false, List, map, ℤ, pos, pos_part, ◌==ℤ◌, ◌-ℤ◌, pos_part-sub_pos, All,
  length, subst, sym, ap, ◌∙◌, arith,
}
use os_research_codebase.Float.{Float}
use os_research_codebase.OrderedMap.{IsAscending}
use os_research_codebase.Sorting.{Distinct}
use os_research_codebase.TierManager.{TierManager, Kernel}
use os_research_codebase.TierManager.Invariant.{Synced}
use os_research_codebase.TierManager.Migration.{migrate_pages}
use os_research_codebase.TierManager.Migration.Counts.{OnFast, fast_count}
use os_research_codebase.TierManager.Migration.Effects.{
  migrate_pages-Promoted, migrate_pages-Demoted,
}
use os_research_codebase.Policy.Plan.{Plan, empty_plan, make_plan}
use os_research_codebase.Policy.Plan.Limits.{WithinLimits, make_plan-WithinLimits}
use os_research_codebase.Policy.Plan.Moves.{Moves, victims_of, make_plan-Moves}
use os_research_codebase.Policy.Addresses.{fast_addresses, victims_known}
use os_research_codebase.Config.{Config}

module _ {D : Type 0} ⦃f : Float D⦄ where
  -- The fast tier after an epoch's migrations: at most its capacity, or what it held if that was
  -- more, and one page for each of the `asked` demotions that did not succeed.
  abbrev pub FastTierBounded : ℤ → ℕ → TierManager D → TierManager D → Type 0
  FastTierBounded capacity asked before after =
      fast_count after.pages_meta + after.epoch_demotions
      ≤ max (pos_part capacity) (fast_count before.pages_meta) + asked + before.epoch_demotions

  pub carried_out :
      {A : Type 0} (kernel : Kernel D) (slow_node capacity limit : ℤ) (plan : Plan A)
      (mgr : TierManager D)
      → (slow_node ==ℤ pos 0) ≡ false
      → IsAscending mgr.pages_meta
      → mgr.fast_tier_count ≡ fast_count mgr.pages_meta
      → WithinLimits (capacity -ℤ pos mgr.fast_tier_count) limit plan
      → Distinct plan.to_demote
      → All (OnFast mgr.pages_meta) plan.to_demote
      → FastTierBounded capacity (length plan.to_demote) mgr (
          migrate_pages kernel plan.to_promote
            (pos 0)
            (migrate_pages kernel plan.to_demote slow_node mgr))
  carried_out kernel slow_node capacity limit plan mgr t a synced w d h =
      let demoted = migrate_pages-Demoted kernel mgr plan.to_demote slow_node t a d h in
      let promoted =
        migrate_pages-Promoted kernel (migrate_pages kernel plan.to_demote slow_node mgr)
          plan.to_promote demoted.ascending in
      omega (
        arith,
        pos_part-sub_pos capacity mgr.fast_tier_count,
        demoted.lost,
        demoted.no_promotion,
        promoted.gained,
        promoted.bounded,
        promoted.no_demotion,
        w.balanced,
        w.kept,
        synced,
      )

  module _ (cfg : Config) (kernel : Kernel D) (mgr : TierManager D) (synced : Synced mgr)
      (apart : (cfg.slow_node ==ℤ pos 0) ≡ false) where
    -- The plan's victims come from the front of a rearrangement of the fast pages.
    pub planned :
        {A : Type 0} (va : A → ℕ) (skip : ℤ → A → Bool) (beats : A → A → Bool)
        (candidates victims : List A)
        → Perm (map va victims) (fast_addresses mgr.pages_meta)
        → (plan : Plan A)
        → plan
          ≡ make_plan va skip beats cfg.max_promotions candidates
              (empty_plan (cfg.fast_tier_capacity -ℤ pos mgr.fast_tier_count) victims)
        → FastTierBounded cfg.fast_tier_capacity (length plan.to_demote) mgr (
            migrate_pages kernel plan.to_promote
              (pos 0)
              (migrate_pages kernel plan.to_demote cfg.slow_node mgr))
    planned {A} va skip beats candidates victims p plan e =
        carried_out kernel cfg.slow_node cfg.fast_tier_capacity cfg.max_promotions plan mgr apart
          synced.ascending synced.counted
          (subst (WithinLimits free cfg.max_promotions) (sym e)
            (make_plan-WithinLimits va skip beats cfg.max_promotions candidates victims free))
          (subst Distinct (sym demotes) known.0)
          (subst (All (OnFast mgr.pages_meta)) (sym demotes) known.1)
      where
        free : ℤ
        free = cfg.fast_tier_capacity -ℤ pos mgr.fast_tier_count

        made :
            Moves va skip beats candidates
              (empty_plan free victims)
              (make_plan va skip beats cfg.max_promotions candidates (empty_plan free victims))
        made = make_plan-Moves va skip beats cfg.max_promotions candidates victims free

        demotes : plan.to_demote ≡ map va (victims_of made.moves)
        demotes = ap (λ (q : Plan A). q.to_demote) e ∙ made.demoted

        known :
            Distinct (map va (victims_of made.moves))
            × All (OnFast mgr.pages_meta) (map va (victims_of made.moves))
        known =
            victims_known mgr.pages_meta (map va victims) (map va (victims_of made.moves))
              (map va
                (make_plan va skip beats cfg.max_promotions candidates
                  (empty_plan free victims)).victims)
              synced.keyed synced.ascending p
              (sym (map-append va (victims_of made.moves) _) ∙ ap (map va) made.from_front)
