-- ===== src/TierManager/Migration/Failure.antt =====
-- `migrate_pages` reads the statuses whatever the call returned, and the vector starts as zeros.
use os_research_codebase.Prelude.{
  ℕ, suc, ◌+◌, ◌≡◌, refl, false, List, [], ◌∷◌, ℤ, pos, ◌==ℤ◌, arith, length, replicate, ap,
}
use os_research_codebase.Float.{Float}
use os_research_codebase.OrderedMap.{OrderedMap, find, insert}
use os_research_codebase.Page.{PageMetadata}
use os_research_codebase.TierManager.{TierManager, Kernel}
use os_research_codebase.TierManager.Migration.{mark_moved, moved, or_zero, migrate_pages}
use os_research_codebase.TierManager.Migration.Effects.{reply_status}

module _ {D : Type 0} ⦃f : Float D⦄ where
  all_marked :
      (vas : List ℕ) (pages : OrderedMap (PageMetadata D))
      → (mark_moved (pos 0) vas (replicate (length vas) (pos 0)) pages).1 ≡ length vas
  unfolding mark_moved
  all_marked [] pages = refl
  all_marked (va ∷ vas) pages =
      ap suc (all_marked vas (insert va (moved (pos 0) (or_zero (find va pages))) pages))

  none_marked :
      (target : ℤ) (vas : List ℕ) (pages : OrderedMap (PageMetadata D))
      → (pos 0 ==ℤ target) ≡ false
      → mark_moved target vas (replicate (length vas) (pos 0)) pages ≡ (pages, 0)
  unfolding mark_moved
  none_marked target [] pages t = refl
  none_marked target (va ∷ vas) pages t = rw (t, mark_moved) (none_marked target vas pages t)

  module _ (kernel : Kernel D) (mgr : TierManager D) where
    counted_promotions :
        (va : ℕ) (vas : List ℕ) (status : List ℤ)
        → reply_status kernel mgr (va ∷ vas) (pos 0) ≡ status
        → (migrate_pages kernel (va ∷ vas) (pos 0) mgr).epoch_promotions
          ≡ mgr.epoch_promotions + (mark_moved (pos 0) (va ∷ vas) status mgr.pages_meta).1
    unfolding migrate_pages
    counted_promotions va vas status e = rw (← e) (ground arith)

    -- A promotion whose system call leaves the status vector as it was, whatever it returns, is
    -- counted as a promotion of every page.
    pub failed_promotion :
        (vas : List ℕ)
        → reply_status kernel mgr vas (pos 0) ≡ replicate (length vas) (pos 0)
        → (migrate_pages kernel vas (pos 0) mgr).epoch_promotions
          ≡ mgr.epoch_promotions + length vas
    unfolding migrate_pages
    failed_promotion [] e = omega arith
    failed_promotion (va ∷ vas) e =
        omega (arith, counted_promotions va vas _ e, all_marked (va ∷ vas) mgr.pages_meta)

    -- A migration to a node other than 0 whose system call leaves the status vector as it was,
    -- whatever it returns, changes nothing.
    pub failed_demotion :
        (vas : List ℕ) (target : ℤ)
        → (pos 0 ==ℤ target) ≡ false
        → reply_status kernel mgr vas target ≡ replicate (length vas) (pos 0)
        → migrate_pages kernel vas target mgr ≡ mgr
    unfolding migrate_pages
    failed_demotion [] target t e = refl
    failed_demotion (va ∷ vas) target t e = rw (e, none_marked target (va ∷ vas) mgr.pages_meta t)
