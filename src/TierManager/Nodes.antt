-- ===== src/TierManager/Nodes.antt =====
-- `update_page_nodes`, `calculate_misplaced_pages` and `get_node` of daemon/tier_manager.cpp.
pub mod Refresh
use os_research_codebase.Prelude.{
  ℕ, suc, ◌+◌, ◌<◌, ◌≡◌, Bool, true, false, ◌&&◌, not, ltb, leb, ◌==◌, if◌then◌else◌, List, [], ◌∷◌,
  map, Option, none, some, ℤ, pos, negsuc, ◌+ℤ◌, ◌==ℤ◌, ltb_ℤ, leb_ℤ, length, replicate, count,
}
use os_research_codebase.Float.{Float, max_of}
use os_research_codebase.OrderedMap.{OrderedMap, find, insert, update_all}
use os_research_codebase.Page.{PageMetadata}
use os_research_codebase.TierManager.{TierManager, Kernel}

abbrev pub cold_purge_threshold : ℕ
cold_purge_threshold = 50

module _ {D : Type 0} ⦃f : Float D⦄ where
  open f use {of_int, decimal, add, sub, mul, div, lt}

  -- The loop of `update_page_nodes`: the pages that stay, and how many are on the fast node.
  -- The status vector has an entry for each page.
  unfoldable pub refresh : List ℤ → OrderedMap (PageMetadata D) → OrderedMap (PageMetadata D) × ℕ
  refresh status [] = ([], 0)
  refresh [] (entry ∷ pages) = (entry ∷ pages, 0)
  refresh (s ∷ status) ((va, m) ∷ pages) =
      let (rest, fast) = refresh status pages in
      let kept = (va, record m { current_node = s }) ∷ rest in
      if ltb_ℤ s (pos 0)
      then (rest, fast)
      else if s ==ℤ pos 0
      then (kept, suc fast)
      else if ltb cold_purge_threshold m.epochs_since_access
      then (rest, fast)
      else (kept, fast)

  -- `TierManager::update_page_nodes`
  unfoldable pub update_page_nodes : Kernel D → TierManager D → TierManager D
  unfolding refresh
  update_page_nodes kernel mgr = elim mgr.pages_meta [
    | [] ↦ mgr
    | entry ∷ others ↦
        let addrs = map (λ e. e.0) mgr.pages_meta in
        let reply = kernel.query addrs (replicate (length addrs) (pos 0)) in
        let (pages, fast) = refresh reply.status mgr.pages_meta in
        if reply.ret ==ℤ pos 0
        then record mgr { pages_meta = pages; fast_tier_count = fast }
        else mgr
  ]

  -- `TierManager::calculate_misplaced_pages`
  unfoldable pub calculate_misplaced_pages : TierManager D → TierManager D
  calculate_misplaced_pages mgr = record mgr {
    epoch_misplaced_pages = count misplaced mgr.pages_meta;
  }
    where
      misplaced : ℕ × PageMetadata D → Bool
      misplaced (va, m) = (m.current_node ==ℤ pos 0) && not m.accessed_this_epoch

  -- `TierManager::get_node`
  unfoldable pub get_node : TierManager D → ℕ → ℤ
  get_node mgr va = elim (find va mgr.pages_meta) [ none ↦ negsuc 0 | some m ↦ m.current_node ]
