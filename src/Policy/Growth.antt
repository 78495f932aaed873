-- ===== src/Policy/Growth.antt =====
-- Where the calls of `std::sort` are defined, no policy lets the fast tier outgrow its capacity but for demotions that fail.
use os_research_codebase.Policy.Random.Choice.{choose_demotions-perm, random_limits}
use os_research_codebase.Policy.Random.{
  pages_on, choose_demotions, random_demotions, random_promotions, random_execute,
}
use os_research_codebase.TierManager.Migration.Effects.{
  migrate_pages-Promoted, migrate_pages-Demoted,
}
use os_research_codebase.TierManager.Migration.Counts.{OnFast}
use os_research_codebase.TierManager.Migration.{migrate_pages}
use os_research_codebase.OrderedMap.{OrderedMap}
use mathlib.Core.List.{Perm}
use mathlib.Core.List.Perm
use os_research_codebase.Prelude.{
  ℕ, ◌≡◌, refl, Bool, false, List, map, pos, ◌==ℤ◌, length, subst, arith, inl, inr, List-cases,
  pos_part, true, if◌then◌else◌, [], ◌∷◌, ◌++◌, leb_ℤ, ◌-ℤ◌, pos_part_room, All,
}
use os_research_codebase.Float.{Float}
use os_research_codebase.Config.{Config}
use os_research_codebase.Page.{PageMetadata}
use os_research_codebase.Sorting.{Sorter, Distinct}
use os_research_codebase.TierManager.{TierManager, Kernel}
use os_research_codebase.Policy.Addresses.{fast_addresses, fast_scored-addresses, victims_known}
use os_research_codebase.Policy.Capacity.{FastTierBounded, planned}
use os_research_codebase.TierManager.Invariant.{Synced}
use os_research_codebase.Policy.Baseline.{
  fast_pages, slow_hot_pages, baseline_plan, promote_and_demote,
}
use os_research_codebase.Policy.Sorts.{BaselineSorts, ScoredSorts}
use os_research_codebase.Policy.Scored.{
  ScoredPage, fast_scored, colder, MlPolicy, score_page, heuristic_score, below_threshold,
  beats_by_margin, is_cold, victim_is_cold, ml_plan, ml_execute, heuristic_plan, heuristic_execute,
}

module _ {D : Type 0} ⦃f : Float D⦄ (cfg : Config) (kernel : Kernel D) (mgr : TierManager D)
    (synced : Synced mgr) (apart : (cfg.slow_node ==ℤ pos 0) ≡ false) where
  unmoved : (asked : ℕ) → FastTierBounded cfg.fast_tier_capacity asked mgr mgr
  unmoved asked = omega arith

  -- `promote_and_demote`, for a comparison that is a strict weak order on the pages: after it the tracked pages on the fast node number at
  -- most the capacity, or what they were if that was more, and one for each demotion that failed.
  pub promote_and_demote_growth :
      (sorter : Sorter (PageMetadata D)) (comp : PageMetadata D → PageMetadata D → Bool)
      → BaselineSorts comp mgr
      → FastTierBounded cfg.fast_tier_capacity
          (length (baseline_plan sorter cfg comp mgr).to_demote)
          mgr
          (promote_and_demote sorter cfg comp kernel mgr)
  unfolding promote_and_demote baseline_plan
  promote_and_demote_growth sorter comp sorts = elim (List-cases (slow_hot_pages mgr.pages_meta)) [
    | inl e ↦ rw (e, promote_and_demote) (unmoved _)
    | inr (m, ms, e) ↦
        rw (e, promote_and_demote)
          (planned cfg kernel mgr synced apart (λ m. m.page_va) (λ free c. false) comp
            (sorter.sort comp (slow_hot_pages mgr.pages_meta))
            (sorter.sort (λ a b. comp b a) (fast_pages mgr.pages_meta))
            (Perm.map (λ m. m.page_va)
              (sorter.sort-perm (λ a b. comp b a) (fast_pages mgr.pages_meta) sorts.1))
            (baseline_plan sorter cfg comp mgr) refl)
  ]

  scored_perm :
      (sorter : Sorter (ScoredPage D)) (score : PageMetadata D → D)
      → ScoredSorts cfg score mgr
      → Perm
          (map
            (λ c. c.page_va)
            (sorter.sort colder (fast_scored cfg.slow_node score mgr.pages_meta)))
          (fast_addresses mgr.pages_meta)
  scored_perm sorter score sorts =
      subst (Perm (map (λ c. c.page_va) sorted))
        (fast_scored-addresses cfg.slow_node score mgr.pages_meta apart)
        (Perm.map (λ c. c.page_va)
          (sorter.sort-perm colder (fast_scored cfg.slow_node score mgr.pages_meta) sorts.1))
    where
      sorted : List (ScoredPage D)
      sorted = sorter.sort colder (fast_scored cfg.slow_node score mgr.pages_meta)

  -- The same of `MLPolicy::execute`.
  pub ml_execute_growth :
      (sorter : Sorter (ScoredPage D)) (p : MlPolicy D)
      → ScoredSorts cfg score_page mgr
      → FastTierBounded cfg.fast_tier_capacity
          (length (ml_plan sorter cfg p mgr).to_demote)
          mgr
          (ml_execute sorter cfg kernel p mgr).1
  unfolding ml_execute ml_plan
  ml_execute_growth sorter p sorts =
      planned cfg kernel mgr synced apart (λ c. c.page_va) (below_threshold p) (beats_by_margin p) _
        _ (scored_perm sorter score_page sorts) (ml_plan sorter cfg p mgr) refl

  -- The same of `HeuristicPolicy::execute`.
  pub heuristic_execute_growth :
      (sorter : Sorter (ScoredPage D))
      → ScoredSorts cfg heuristic_score mgr
      → FastTierBounded cfg.fast_tier_capacity
          (length (heuristic_plan sorter cfg mgr).to_demote)
          mgr
          (heuristic_execute sorter cfg kernel mgr)
  unfolding heuristic_execute heuristic_plan
  heuristic_execute_growth sorter sorts =
      planned cfg kernel mgr synced apart (λ c. c.page_va) is_cold victim_is_cold _ _
        (scored_perm sorter heuristic_score sorts) (heuristic_plan sorter cfg mgr) refl

  -- The two loops that gather the fast pages give the same.
  pages_on-fast_pages :
      (entries : OrderedMap (PageMetadata D)) → pages_on (pos 0) entries ≡ fast_pages entries
  unfolding pages_on fast_pages
  pages_on-fast_pages [] = refl
  pages_on-fast_pages ((va, m) ∷ rest) = ground (arith, pages_on-fast_pages rest)

  module _ (draw : ℕ → ℕ → ℕ) where
    -- The pages to demote at random are distinct and on the fast node.
    random_demotions_known :
        Distinct (random_demotions draw cfg mgr)
        × All (OnFast mgr.pages_meta) (random_demotions draw cfg mgr)
    unfolding random_demotions
    random_demotions_known =
        either _ (leb_ℤ (cfg.fast_tier_capacity -ℤ pos mgr.fast_tier_count) (pos 0)) (
          victims_known mgr.pages_meta (chosen ++ left) chosen left synced.keyed synced.ascending
            (Perm.symm (
              subst (λ ms. Perm (map (λ m. m.page_va) ms) (chosen ++ left))
                (pages_on-fast_pages mgr.pages_meta) chosen_perm.1))
            refl)
      where
        either :
            (us : List ℕ) (b : Bool)
            → Distinct us × All (OnFast mgr.pages_meta) us
            → Distinct (if b then us else []) × All (OnFast mgr.pages_meta) (if b then us else [])
        either us true h = h
        either us false h = (tt, tt)

        chosen : List ℕ
        chosen =
            choose_demotions draw 0 (pos_part cfg.max_demotions) (pages_on (pos 0) mgr.pages_meta)

        chosen_perm :
            (others : List (PageMetadata D)) × Perm
              (map (λ m. m.page_va) (pages_on (pos 0) mgr.pages_meta))
              (chosen ++ map (λ m. m.page_va) others)
        chosen_perm =
            choose_demotions-perm draw 0 (pos_part cfg.max_demotions)
              (pages_on (pos 0) mgr.pages_meta)

        left : List ℕ
        left = map (λ m. m.page_va) chosen_perm.0

    -- The same of `RandomPolicy::execute`.
    pub random_execute_growth :
        FastTierBounded cfg.fast_tier_capacity
          (length (random_demotions draw cfg mgr))
          mgr
          (random_execute draw cfg kernel mgr)
    unfolding random_execute
    random_execute_growth =
        let demoted =
          migrate_pages-Demoted kernel mgr demotions cfg.slow_node apart synced.ascending
            random_demotions_known.0 random_demotions_known.1 in
        let promoted =
          migrate_pages-Promoted kernel (migrate_pages kernel demotions cfg.slow_node mgr)
            (random_promotions draw cfg mgr) demoted.ascending in
        omega (
          arith,
          pos_part_room cfg.fast_tier_capacity mgr.fast_tier_count (length demotions),
          demoted.lost,
          demoted.no_promotion,
          promoted.gained,
          promoted.bounded,
          promoted.no_demotion,
          (random_limits draw cfg mgr).2,
          synced.counted,
        )
      where
        demotions : List ℕ
        demotions = random_demotions draw cfg mgr
