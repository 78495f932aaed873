-- ===== src/Policy/Baseline.antt =====
-- `promote_and_demote` of daemon/policy.cpp and the comparisons of the LRU, LFU and decaying LFU
-- policies. `comp a b` says that `a` is hotter than `b`.
pub mod Orders
pub mod Greedy
use os_research_codebase.Prelude.{
  ℕ, ◌≡◌, Bool, true, false, not, ◌&&◌, ◌||◌, if◌then◌else◌, List, [], ◌∷◌, ℤ, pos, ◌==ℤ◌, ltb_ℤ,
  ◌-ℤ◌,
}
use os_research_codebase.Float.{Float}
use os_research_codebase.Config.{Config}
use os_research_codebase.OrderedMap.{OrderedMap}
use os_research_codebase.Page.{PageMetadata}
use os_research_codebase.Sorting.{Sorter}
use os_research_codebase.TierManager.{TierManager, Kernel}
use os_research_codebase.TierManager.Migration.{migrate_pages}
use os_research_codebase.Policy.Plan.{Plan, empty_plan, make_plan}

module _ {D : Type 0} where
  -- The loop that gathers the pages of the fast tier.
  unfoldable pub fast_pages : OrderedMap (PageMetadata D) → List (PageMetadata D)
  fast_pages [] = []
  fast_pages ((va, m) ∷ rest) =
      if m.current_node ==ℤ pos 0 then m ∷ fast_pages rest else fast_pages rest

  -- The same loop's other list: slow pages that were accessed in this epoch.
  unfoldable pub slow_hot_pages : OrderedMap (PageMetadata D) → List (PageMetadata D)
  slow_hot_pages [] = []
  slow_hot_pages ((va, m) ∷ rest) =
      if not (m.current_node ==ℤ pos 0) && m.accessed_this_epoch
      then m ∷ slow_hot_pages rest
      else slow_hot_pages rest

  -- `LRUPolicy`: the later access is hotter, then the higher count.
  unfoldable pub lru_hotter : PageMetadata D → PageMetadata D → Bool
  lru_hotter a b =
      if not (a.last_access_time ==ℤ b.last_access_time)
      then ltb_ℤ b.last_access_time a.last_access_time
      else ltb_ℤ b.access_count a.access_count

  -- `LFUPolicy`: the higher count is hotter, then the later access.
  unfoldable pub lfu_hotter : PageMetadata D → PageMetadata D → Bool
  lfu_hotter a b =
      if not (a.access_count ==ℤ b.access_count)
      then ltb_ℤ b.access_count a.access_count
      else ltb_ℤ b.last_access_time a.last_access_time

module _ {D : Type 0} ⦃f : Float D⦄ where
  open f use {decimal, sub, neg, lt}

  -- `DecayingLFUPolicy`: the higher frequency is hotter, and within 0.001 the higher count.
  unfoldable pub decaying_lfu_hotter : PageMetadata D → PageMetadata D → Bool
  decaying_lfu_hotter a b =
      let diff = sub a.smooth_frequency b.smooth_frequency in
      if lt (decimal 1 3) diff || lt diff (neg (decimal 1 3))
      then lt b.smooth_frequency a.smooth_frequency
      else ltb_ℤ b.access_count a.access_count

  module _ (sorter : Sorter (PageMetadata D)) (cfg : Config)
      (comp : PageMetadata D → PageMetadata D → Bool) where
    -- `std::sort` by `comp`, hottest first.
    abbrev pub hottest_first : OrderedMap (PageMetadata D) → List (PageMetadata D)
    hottest_first pages = sorter.sort comp (slow_hot_pages pages)

    -- `std::sort` by `comp(b, a)`, coldest first.
    abbrev pub coldest_first : OrderedMap (PageMetadata D) → List (PageMetadata D)
    coldest_first pages = sorter.sort (λ a b. comp b a) (fast_pages pages)

    -- What the loop of `promote_and_demote` decides.
    unfoldable pub baseline_plan : TierManager D → Plan (PageMetadata D)
    baseline_plan mgr =
        make_plan (λ m. m.page_va) (λ free c. false) comp cfg.max_promotions
          (hottest_first mgr.pages_meta)
          (empty_plan (cfg.fast_tier_capacity -ℤ pos mgr.fast_tier_count)
            (coldest_first mgr.pages_meta))

    unfoldable pub promote_and_demote : Kernel D → TierManager D → TierManager D
    promote_and_demote kernel mgr = elim (slow_hot_pages mgr.pages_meta) [
      | [] ↦ mgr
      | m ∷ ms ↦
          let plan = baseline_plan mgr in
          migrate_pages kernel plan.to_promote (pos 0)
            (migrate_pages kernel plan.to_demote cfg.slow_node mgr)
    ]
