-- ===== src/Daemon/Metrics.antt =====
-- What follows the samples in a round of daemon/daemon.cpp leaves the epoch's counts as they are.
use os_research_codebase.Prelude.{
  ℕ, ◌≡◌, refl, ◌∙◌, Bool, List, [], ◌∷◌, ℤ, pos, arith, List-cases, inl, inr,
}
use os_research_codebase.Float.{Float}
use os_research_codebase.Config.{Config}
use os_research_codebase.Page.{PageMetadata}
use os_research_codebase.Sorting.{Sorter}
use os_research_codebase.TierManager.{TierManager, Kernel}
use os_research_codebase.TierManager.Migration.{migrate_pages}
use os_research_codebase.TierManager.Nodes.{update_page_nodes, calculate_misplaced_pages}
use os_research_codebase.Policy.Baseline.{
  lru_hotter, lfu_hotter, decaying_lfu_hotter, slow_hot_pages, promote_and_demote,
}
use os_research_codebase.Policy.Scored.{ScoredPage, ml_execute, heuristic_execute}
use os_research_codebase.Policy.Random.{random_execute}
use os_research_codebase.Policy.Dispatch.{
  Policy, lru, lfu, decaying_lfu, heuristic, random, ml, execute,
}

module _ {D : Type 0} ⦃f : Float D⦄ where
  -- Both counts of an epoch.
  abbrev pub metrics : TierManager D → ℤ × ℤ
  metrics mgr = (mgr.epoch_accesses, mgr.epoch_hits)

  migrate_pages-metrics :
      (kernel : Kernel D) (vas : List ℕ) (target : ℤ) (mgr : TierManager D)
      → metrics (migrate_pages kernel vas target mgr) ≡ metrics mgr
  unfolding migrate_pages
  migrate_pages-metrics kernel [] target mgr = refl
  migrate_pages-metrics kernel (va ∷ vas) target mgr = ground arith

  pub update_page_nodes-metrics :
      (kernel : Kernel D) (mgr : TierManager D)
      → metrics (update_page_nodes kernel mgr) ≡ metrics mgr
  unfolding update_page_nodes
  update_page_nodes-metrics kernel mgr = elim (List-cases mgr.pages_meta) [
    | inl e ↦ rw (e, update_page_nodes) refl
    | inr (entry, others, e) ↦ ground (arith, e)
  ]

  pub calculate_misplaced_pages-metrics :
      (mgr : TierManager D) → metrics (calculate_misplaced_pages mgr) ≡ metrics mgr
  unfolding calculate_misplaced_pages
  calculate_misplaced_pages-metrics mgr = refl

  module _ (cfg : Config) (kernel : Kernel D) (mgr : TierManager D) where
    carried_out-metrics :
        (to_demote to_promote : List ℕ)
        → metrics (
            migrate_pages kernel to_promote
              (pos 0)
              (migrate_pages kernel to_demote cfg.slow_node mgr))
          ≡ metrics mgr
    carried_out-metrics to_demote to_promote =
        migrate_pages-metrics kernel to_promote (pos 0)
          (migrate_pages kernel to_demote cfg.slow_node mgr)
        ∙ migrate_pages-metrics kernel to_demote cfg.slow_node mgr

    promote_and_demote-metrics :
        (sorter : Sorter (PageMetadata D)) (comp : PageMetadata D → PageMetadata D → Bool)
        → metrics (promote_and_demote sorter cfg comp kernel mgr) ≡ metrics mgr
    unfolding promote_and_demote
    promote_and_demote-metrics sorter comp = elim (List-cases (slow_hot_pages mgr.pages_meta)) [
      | inl e ↦ rw (e, promote_and_demote)
      | inr (m, ms, e) ↦ rw (e, promote_and_demote) (carried_out-metrics _ _)
    ]

    pub execute-metrics :
        (pages : Sorter (PageMetadata D)) (scored : Sorter (ScoredPage D)) (draw : ℕ → ℕ → ℕ)
        (policy : Policy D)
        → metrics (execute pages scored draw cfg kernel policy mgr).1 ≡ metrics mgr
    unfolding execute ml_execute heuristic_execute random_execute
    execute-metrics pages scored draw lru = promote_and_demote-metrics pages lru_hotter
    execute-metrics pages scored draw lfu = promote_and_demote-metrics pages lfu_hotter
    execute-metrics pages scored draw decaying_lfu =
        promote_and_demote-metrics pages decaying_lfu_hotter
    execute-metrics pages scored draw heuristic = carried_out-metrics _ _
    execute-metrics pages scored draw random = carried_out-metrics _ _
    execute-metrics pages scored draw (ml p) = carried_out-metrics _ _
