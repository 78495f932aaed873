-- ===== src/TierManager/Migration.antt =====
-- `TierManager::migrate_pages` of daemon/tier_manager.cpp.
pub mod Counts
pub mod Effects
pub mod Failure
use os_research_codebase.Prelude.{
  ℕ, suc, ◌+◌, ◌<◌, ◌≡◌, Bool, true, false, ◌&&◌, not, ltb, leb, ◌==◌, if◌then◌else◌, List, [], ◌∷◌,
  map, Option, none, some, ℤ, pos, negsuc, ◌+ℤ◌, ◌==ℤ◌, ltb_ℤ, leb_ℤ, length, replicate, count,
}
use os_research_codebase.Float.{Float, max_of}
use os_research_codebase.OrderedMap.{OrderedMap, find, insert, update_all}
use os_research_codebase.Page.{PageMetadata, zero_page}
use os_research_codebase.TierManager.{TierManager, Kernel}

module _ {D : Type 0} ⦃f : Float D⦄ where
  open f use {of_int, decimal, add, sub, mul, div, lt}

  abbrev pub or_zero : Option (PageMetadata D) → PageMetadata D
  or_zero none = zero_page
  or_zero (some m) = m

  unfoldable pub moved : ℤ → PageMetadata D → PageMetadata D
  moved target m = record m { current_node = target; migration_history = suc m.migration_history }

  -- The loop of `migrate_pages`: the pages, and how many moves succeeded.
  unfoldable pub mark_moved :
      ℤ → List ℕ → List ℤ → OrderedMap (PageMetadata D) → OrderedMap (PageMetadata D) × ℕ
  unfolding moved
  mark_moved target [] status pages = (pages, 0)
  mark_moved target (va ∷ vas) [] pages = (pages, 0)
  mark_moved target (va ∷ vas) (s ∷ status) pages =
      let hit = s ==ℤ target in
      let pages' =
        (if hit then insert va (moved target (or_zero (find va pages))) pages else pages) in
      let (last, succeeded) = mark_moved target vas status pages' in
      (last, (if hit then suc succeeded else succeeded))

  -- `TierManager::migrate_pages`
  unfoldable pub migrate_pages : Kernel D → List ℕ → ℤ → TierManager D → TierManager D
  migrate_pages kernel [] target mgr = mgr
  migrate_pages kernel (va ∷ vas) target mgr =
      let pages = va ∷ vas in
      let reply =
        kernel.move pages (replicate (length pages) target) (replicate (length pages) (pos 0)) in
      let (last, succeeded) = mark_moved target pages reply.status mgr.pages_meta in
      let marked = record mgr { pages_meta = last } in
      if ltb 0 succeeded
      then record marked {
        total_migrations = mgr.total_migrations + succeeded;
        total_migration_latency_ms = add mgr.total_migration_latency_ms (kernel.latency pages);
        epoch_promotions =
            (if target ==ℤ pos 0 then mgr.epoch_promotions + succeeded else mgr.epoch_promotions);
        epoch_demotions =
            (if target ==ℤ pos 0 then mgr.epoch_demotions else mgr.epoch_demotions + succeeded);
      }
      else marked
