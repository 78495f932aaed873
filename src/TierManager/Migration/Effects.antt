-- ===== src/TierManager/Migration/Effects.antt =====
-- What `migrate_pages` does to the counters and to the number of pages on the fast node.
use os_research_codebase.Prelude.{
  ℕ, ◌+◌, ◌≤◌, ◌≡◌, refl, false, List, [], ◌∷◌, ℤ, pos, ◌==ℤ◌, arith, length, All, replicate,
}
use os_research_codebase.Float.{Float}
use os_research_codebase.OrderedMap.{IsAscending}
use os_research_codebase.Sorting.{Distinct}
use os_research_codebase.TierManager.{TierManager, Kernel}
use os_research_codebase.TierManager.Migration.{migrate_pages}
use os_research_codebase.TierManager.Migration.Counts.{
  OnFast, fast_count, mark_moved-IsAscending, promotion-fast_count, demotion-fast_count,
  mark_moved-le-length,
}

module _ {D : Type 0} ⦃f : Float D⦄ (kernel : Kernel D) (mgr : TierManager D) where
  abbrev pub reply_status : List ℕ → ℤ → List ℤ
  reply_status vas target =
      (kernel.move vas (replicate (length vas) target) (replicate (length vas) (pos 0))).status

  pub record Promoted (vas : List ℕ) : Type 0 where
    pub ascending : IsAscending (migrate_pages kernel vas (pos 0) mgr).pages_meta
    pub gained :
        fast_count (migrate_pages kernel vas (pos 0) mgr).pages_meta + mgr.epoch_promotions
        ≤ fast_count mgr.pages_meta + (migrate_pages kernel vas (pos 0) mgr).epoch_promotions
    pub bounded :
        (migrate_pages kernel vas (pos 0) mgr).epoch_promotions ≤ mgr.epoch_promotions + length vas
    pub no_demotion : (migrate_pages kernel vas (pos 0) mgr).epoch_demotions ≡ mgr.epoch_demotions
    pub totalled :
        (migrate_pages kernel vas (pos 0) mgr).total_migrations + mgr.epoch_promotions
        ≡ mgr.total_migrations + (migrate_pages kernel vas (pos 0) mgr).epoch_promotions

  -- A migration of any pages to the fast node of a map in order keeps the order, adds at most one
  -- promotion for each page asked for and one to the total for each promotion, changes no count of
  -- demotions, and puts no more new pages on the fast node than it counts as promoted.
  pub migrate_pages-Promoted : (vas : List ℕ) → IsAscending mgr.pages_meta → Promoted vas
  unfolding migrate_pages
  migrate_pages-Promoted [] a = record {
    ascending = a;
    gained = omega arith;
    bounded = omega arith;
    no_demotion = refl;
    totalled = omega arith;
  }
  migrate_pages-Promoted (va ∷ vas) a = record {
    ascending = ground (arith, mark_moved-IsAscending (pos 0) (va ∷ vas) status mgr.pages_meta a);
    gained = ground (arith, promotion-fast_count (va ∷ vas) status mgr.pages_meta a);
    bounded = ground (arith, mark_moved-le-length (pos 0) (va ∷ vas) status mgr.pages_meta);
    no_demotion = ground arith;
    totalled = ground arith;
  }
    where
      status : List ℤ
      status = reply_status (va ∷ vas) (pos 0)

  pub record Demoted (vas : List ℕ) (target : ℤ) : Type 0 where
    pub ascending : IsAscending (migrate_pages kernel vas target mgr).pages_meta
    pub lost :
        fast_count (migrate_pages kernel vas target mgr).pages_meta
          + (migrate_pages kernel vas target mgr).epoch_demotions
        ≡ fast_count mgr.pages_meta + mgr.epoch_demotions
    pub no_promotion : (migrate_pages kernel vas target mgr).epoch_promotions ≡ mgr.epoch_promotions

  -- A migration of distinct pages that are on the fast node, to another node, keeps the map in order,
  -- takes exactly as many pages off the fast node as it counts as demoted, and changes no count of
  -- promotions.
  pub migrate_pages-Demoted :
      (vas : List ℕ) (target : ℤ)
      → (target ==ℤ pos 0) ≡ false
      → IsAscending mgr.pages_meta
      → Distinct vas
      → All (OnFast mgr.pages_meta) vas
      → Demoted vas target
  unfolding migrate_pages
  migrate_pages-Demoted [] target t a d h = record {
    ascending = a;
    lost = refl;
    no_promotion = refl;
  }
  migrate_pages-Demoted (va ∷ vas) target t a d h = record {
    ascending = ground (arith, mark_moved-IsAscending target (va ∷ vas) status mgr.pages_meta a);
    lost = ground (arith, demotion-fast_count target (va ∷ vas) status mgr.pages_meta t a d h);
    no_promotion = ground arith;
  }
    where
      status : List ℤ
      status = reply_status (va ∷ vas) target
