-- ===== src/Daemon/Growth.antt =====
-- What a round of the main loop does to the fast tier.
use os_research_codebase.Prelude.{ℕ, ◌≡◌, false, pos, ◌==ℤ◌, length, arith, ap, ◌∙◌, ◌+◌}
use os_research_codebase.Float.{Float}
use os_research_codebase.Config.{Config}
use os_research_codebase.Page.{PageMetadata}
use os_research_codebase.Sorting.{Sorter}
use os_research_codebase.TierManager.{TierManager, Kernel}
use os_research_codebase.TierManager.Accesses.{detect_accesses}
use os_research_codebase.TierManager.Accesses.Epoch.{detect_accesses-Synced}
use os_research_codebase.TierManager.Nodes.Refresh.{query_reply, update_page_nodes-Synced}
use os_research_codebase.TierManager.Invariant.{Synced}
use os_research_codebase.TierManager.Migration.Counts.{fast_count}
use os_research_codebase.Policy.Capacity.{FastTierBounded}
use os_research_codebase.Policy.Growth.{
  promote_and_demote_growth, ml_execute_growth, heuristic_execute_growth, random_execute_growth,
}
use os_research_codebase.Policy.Baseline.{
  lru_hotter, lfu_hotter, decaying_lfu_hotter, baseline_plan,
}
use os_research_codebase.Policy.Sorts.{PolicySorts, lru-BaselineSorts, lfu-BaselineSorts}
use os_research_codebase.Policy.Scored.{ScoredPage, ml_plan, heuristic_plan}
use os_research_codebase.Policy.Random.{random_demotions}
use os_research_codebase.Policy.Dispatch.{
  Policy, lru, lfu, decaying_lfu, heuristic, random, ml, execute,
}
use os_research_codebase.Daemon.Epoch.{
  Surroundings, summary_header, summary_line, sense, WorkloadInfo,
}

module _ {D : Type 0} ⦃f : Float D⦄ (pages : Sorter (PageMetadata D))
    (scored : Sorter (ScoredPage D)) (cfg : Config)
    (apart : (cfg.slow_node ==ℤ pos 0) ≡ false) where
  -- How many demotions a policy asks for.
  pub asked : (ℕ → ℕ → ℕ) → Policy D → TierManager D → ℕ
  asked draw lru mgr = length (baseline_plan pages cfg lru_hotter mgr).to_demote
  asked draw lfu mgr = length (baseline_plan pages cfg lfu_hotter mgr).to_demote
  asked draw decaying_lfu mgr = length (baseline_plan pages cfg decaying_lfu_hotter mgr).to_demote
  asked draw heuristic mgr = length (heuristic_plan scored cfg mgr).to_demote
  asked draw random mgr = length (random_demotions draw cfg mgr)
  asked draw (ml p) mgr = length (ml_plan scored cfg p mgr).to_demote

  -- On pages in order with a right count, and a slow node that is not node 0, a policy leaves
  -- at most as many pages recorded on the fast node as its capacity, or as many as
  -- were if that is more, and one for each demotion that it asked for and that did not succeed. For
  -- the decaying LFU policy and those that go by scores the comparison must be a strict weak order
  -- on the pages that are sorted; LRU's and LFU's are, and the random policy sorts none.
  pub execute_growth :
      (draw : ℕ → ℕ → ℕ) (kernel : Kernel D) (policy : Policy D) (mgr : TierManager D)
      → Synced mgr
      → PolicySorts cfg policy mgr
      → FastTierBounded cfg.fast_tier_capacity
          (asked draw policy mgr)
          mgr
          (execute pages scored draw cfg kernel policy mgr).1
  unfolding execute asked
  execute_growth draw kernel lru mgr y sorts =
      promote_and_demote_growth cfg kernel mgr y apart pages lru_hotter (lru-BaselineSorts mgr)
  execute_growth draw kernel lfu mgr y sorts =
      promote_and_demote_growth cfg kernel mgr y apart pages lfu_hotter (lfu-BaselineSorts mgr)
  execute_growth draw kernel decaying_lfu mgr y sorts =
      promote_and_demote_growth cfg kernel mgr y apart pages decaying_lfu_hotter sorts
  execute_growth draw kernel heuristic mgr y sorts =
      heuristic_execute_growth cfg kernel mgr y apart scored sorts
  execute_growth draw kernel random mgr y sorts = random_execute_growth cfg kernel mgr y apart draw
  execute_growth draw kernel (ml p) mgr y sorts =
      ml_execute_growth cfg kernel mgr y apart scored p sorts

  -- The pages as the round's samples leave them, before the query.
  abbrev pub before_query : Surroundings D → TierManager D → TierManager D
  before_query env mgr =
      detect_accesses cfg env.now env.samples
        (record mgr { epoch_promotions = 0; epoch_demotions = 0 })

  -- The sensing part of a round keeps the pages in order, under their own addresses, and the count of
  -- the fast tier right, if the slow node is not node 0 and the query succeeds with a status for
  -- each page.
  pub sense-Synced :
      (env : Surroundings D) (mgr : TierManager D)
      → Synced mgr
      → (query_reply env.kernel_before (before_query env mgr)).ret ≡ pos 0
      → length (query_reply env.kernel_before (before_query env mgr)).status
        ≡ length (before_query env mgr).pages_meta
      → Synced (sense pages scored cfg env mgr)
  unfolding sense
  sense-Synced env mgr y ok full =
      update_page_nodes-Synced env.kernel_before (before_query env mgr) s.ascending s.keyed
        (λ e. s.counted ∙ ap fast_count e) ok full
    where
      s : Synced (before_query env mgr)
      s =
          detect_accesses-Synced cfg env.now env.samples
            (record mgr { epoch_promotions = 0; epoch_demotions = 0 }) apart
            (record { ascending = y.ascending; keyed = y.keyed; counted = y.counted })

-- Every line of the summary has one value more than the header has names.
pub summary_line-summary_header :
    {D : Type 0} ⦃f : Float D⦄ (epoch : ℕ) (info : WorkloadInfo) (epoch_ms : D)
    (sensed last : TierManager D)
    → length (summary_line epoch info epoch_ms sensed last) ≡ length summary_header + 1
unfolding summary_line
summary_line-summary_header epoch info epoch_ms sensed last = omega arith
