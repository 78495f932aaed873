-- ===== src/Policy/Baseline/Greedy.antt =====
-- `promote_and_demote` makes the greedy choice: it leaves no hotter page behind without reason.
use mathlib.Core.List.Perm
use os_research_codebase.Prelude.{
  ◌≡◌, ◌⊎◌, Bool, true, false, List, [], ◌++◌, map, pos, ltb_ℤ, All, length,
}
use os_research_codebase.Float.{Float}
use os_research_codebase.Config.{Config}
use os_research_codebase.OrderedMap.{OrderedMap}
use os_research_codebase.Page.{PageMetadata}
use os_research_codebase.Sorting.{Sorter, StrictWeak}
use os_research_codebase.TierManager.{TierManager}
use os_research_codebase.Policy.Plan.{Plan}
use os_research_codebase.Policy.Plan.Moves.{Moves}
use os_research_codebase.Policy.Plan.Stops.{Stops}
use os_research_codebase.Policy.Plan.Refusals.{NoneBeats}
use os_research_codebase.Policy.Baseline.{hottest_first, baseline_plan}

module _ {D : Type 0} (valid : PageMetadata D → Bool) where
  abbrev pub AllPagesValid : OrderedMap (PageMetadata D) → Type 0
  AllPagesValid pages = All (λ e. valid e.1 ≡ true) pages

module _ {D : Type 0} ⦃f : Float D⦄ (sorter : Sorter (PageMetadata D)) (cfg : Config)
    (comp : PageMetadata D → PageMetadata D → Bool) (valid : PageMetadata D → Bool)
    (w : StrictWeak valid comp) (mgr : TierManager D)
    (known : AllPagesValid valid mgr.pages_meta) where
  abbrev pub plan : Plan (PageMetadata D)
  plan = baseline_plan sorter cfg comp mgr

  -- The hot pages `done` are promoted, hottest first; `rest` stays behind.
  pub record Greedy : Type 0 where
    pub done : List (PageMetadata D)
    pub rest : List (PageMetadata D)
    pub split : hottest_first sorter cfg comp mgr.pages_meta ≡ done ++ rest
    pub promoted : plan.to_promote ≡ map (λ m. m.page_va) done
    pub reason :
        (rest ≡ [])
        ⊎ (ltb_ℤ (pos (length plan.to_promote)) cfg.max_promotions ≡ false)
        ⊎ (ltb_ℤ (pos 0) plan.free_fast_slots ≡ false) × NoneBeats w rest plan.victims
