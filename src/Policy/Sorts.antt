-- ===== src/Policy/Sorts.antt =====
-- What `std::sort` needs of the calls that a policy of daemon/policy.cpp makes: that the policy's
-- comparison is a strict weak order on the pages that it sorts.
use os_research_codebase.Prelude.{◌≡◌, refl, Bool, true, List, [], ◌∷◌, All}
use os_research_codebase.Float.{Float}
use os_research_codebase.Config.{Config}
use os_research_codebase.Page.{PageMetadata}
use os_research_codebase.Sorting.{StrictWeak, Sortable, reverse_StrictWeak}
use os_research_codebase.TierManager.{TierManager}
use os_research_codebase.Policy.Baseline.{
  fast_pages, slow_hot_pages, lru_hotter, lfu_hotter, decaying_lfu_hotter,
}
use os_research_codebase.Policy.Baseline.Orders.{
  every_page, lru_hotter-StrictWeak, lfu_hotter-StrictWeak,
}
use os_research_codebase.Policy.Scored.{
  fast_scored, slow_candidates, hotter, colder, score_page, heuristic_score,
}
use os_research_codebase.Policy.Dispatch.{Policy, lru, lfu, decaying_lfu, heuristic, random, ml}

module _ {D : Type 0} ⦃f : Float D⦄ where
  -- The two calls of `promote_and_demote`.
  abbrev pub BaselineSorts : (PageMetadata D → PageMetadata D → Bool) → TierManager D → Type 0
  BaselineSorts comp mgr =
      Sortable comp (slow_hot_pages mgr.pages_meta)
      × Sortable (λ a b. comp b a) (fast_pages mgr.pages_meta)

  -- The two calls of a score-based policy.
  abbrev pub ScoredSorts : Config → (PageMetadata D → D) → TierManager D → Type 0
  ScoredSorts cfg score mgr =
      Sortable hotter (slow_candidates cfg.slow_node score mgr.pages_meta)
      × Sortable colder (fast_scored cfg.slow_node score mgr.pages_meta)

  -- Nothing is needed for the comparisons of LRU and LFU, which are strict weak orders on all
  -- pages, nor for the random policy, which does not sort.
  abbrev pub PolicySorts : Config → Policy D → TierManager D → Type 0
  PolicySorts cfg lru mgr = Unit
  PolicySorts cfg lfu mgr = Unit
  PolicySorts cfg decaying_lfu mgr = BaselineSorts decaying_lfu_hotter mgr
  PolicySorts cfg heuristic mgr = ScoredSorts cfg heuristic_score mgr
  PolicySorts cfg random mgr = Unit
  PolicySorts cfg (ml p) mgr = ScoredSorts cfg score_page mgr

  everywhere : (ms : List (PageMetadata D)) → All (λ m. every_page m ≡ true) ms
  everywhere [] = tt
  everywhere (m ∷ ms) = (refl, everywhere ms)

  weak_BaselineSorts :
      (comp : PageMetadata D → PageMetadata D → Bool) (mgr : TierManager D)
      → StrictWeak every_page comp
      → BaselineSorts comp mgr
  weak_BaselineSorts comp mgr w = (
    (every_page, w, everywhere (slow_hot_pages mgr.pages_meta)),
    (every_page, reverse_StrictWeak w, everywhere (fast_pages mgr.pages_meta)),
  )

  pub lru-BaselineSorts : (mgr : TierManager D) → BaselineSorts lru_hotter mgr
  lru-BaselineSorts mgr = weak_BaselineSorts lru_hotter mgr (lru_hotter-StrictWeak D)

  pub lfu-BaselineSorts : (mgr : TierManager D) → BaselineSorts lfu_hotter mgr
  lfu-BaselineSorts mgr = weak_BaselineSorts lfu_hotter mgr (lfu_hotter-StrictWeak D)
