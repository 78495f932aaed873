-- ===== src/Policy/Scored/Decisions.antt =====
-- What the loops of the score-based policies decide.
use os_research_codebase.Prelude.{
  ◌≡◌, Bool, true, false, ◌⊎◌, List, [], ◌∷◌, ℤ, pos, ltb_ℤ, ◌-ℤ◌, arith,
}
use os_research_codebase.Float.{Float}
use os_research_codebase.Config.{Config}
use os_research_codebase.Page.{PageMetadata}
use os_research_codebase.Sorting.{Sorter}
use os_research_codebase.TierManager.{TierManager}
use os_research_codebase.Cusum.{get_promote_margin, get_demote_margin, get_absolute_threshold}
use os_research_codebase.Policy.Plan.{empty_plan}
use os_research_codebase.Policy.Plan.Verdicts.{
  Verdict, Verdicts, Verdicts-weaken, ByTests, HeldUp, make_plan-Verdicts,
}
use os_research_codebase.Policy.Plan.Limits.{WithinLimits, make_plan-WithinLimits}
use os_research_codebase.Policy.Baseline.{baseline_plan}
use os_research_codebase.Policy.Scored.{
  ScoredPage, MlPolicy, score_page, slow_candidates, fast_scored, hotter, colder, below_threshold,
  beats_by_margin, ml_plan, heuristic_plan,
}

module _ {D : Type 0} ⦃f : Float D⦄ (p : MlPolicy D) where
  open f use {add, sub, lt}

  -- A candidate is left out for a score below the fill threshold while slots are free, and below the
  -- detector's absolute threshold when none is. Otherwise it takes a free slot, or, when none is
  -- free, the place of a victim whose score is below its own by both margins of the detector.
  abbrev pub MlRight : ℤ → ScoredPage D → Verdict (ScoredPage D) → Type 0
  MlRight free c Verdict.left =
      (ltb_ℤ (pos 0) free ≡ true) × (lt c.score p.fill_threshold ≡ true)
      ⊎ (ltb_ℤ (pos 0) free ≡ false) × (lt c.score (get_absolute_threshold p.cusum) ≡ true)
  MlRight free c Verdict.fills = (ltb_ℤ (pos 0) free ≡ true) × (lt c.score p.fill_threshold ≡ false)
  MlRight free c (Verdict.swaps v) =
      (ltb_ℤ (pos 0) free ≡ false)
      × (lt c.score (get_absolute_threshold p.cusum) ≡ false)
      × (lt (add v.score (get_promote_margin p.cusum)) c.score ≡ true)
      × (lt v.score (sub c.score (get_demote_margin p.cusum)) ≡ true)

  -- The candidate is not below the absolute threshold, and there is no victim left, or the first
  -- is not below it by one of the margins.
  abbrev pub MlHeld : ScoredPage D → List (ScoredPage D) → Type 0
  MlHeld c [] = lt c.score (get_absolute_threshold p.cusum) ≡ false
  MlHeld c (v ∷ vs) =
      (lt c.score (get_absolute_threshold p.cusum) ≡ false)
      × ((lt (add v.score (get_promote_margin p.cusum)) c.score ≡ false)
          ⊎ (lt v.score (sub c.score (get_demote_margin p.cusum)) ≡ false))

  ByTests-MlRight :
      (free : ℤ) (c : ScoredPage D) (k : Verdict (ScoredPage D))
      → ByTests (below_threshold p) (beats_by_margin p) free c k
      → MlRight free c k
  unfolding below_threshold beats_by_margin
  ByTests-MlRight free c Verdict.left h = ground arith
  ByTests-MlRight free c Verdict.fills h = ground arith
  ByTests-MlRight free c (Verdict.swaps v) h = ground arith

  HeldUp-MlHeld :
      (c : ScoredPage D) (vs : List (ScoredPage D))
      → HeldUp (below_threshold p) (beats_by_margin p) c vs
      → MlHeld c vs
  unfolding below_threshold beats_by_margin
  HeldUp-MlHeld c [] (free, z, s) = ground arith
  HeldUp-MlHeld c (v ∷ vs) (free, z, s, b) = ground arith

module _ {D : Type 0} ⦃f : Float D⦄ (cfg : Config) (mgr : TierManager D) where
  abbrev pub free_slots : ℤ
  free_slots = cfg.fast_tier_capacity -ℤ pos mgr.fast_tier_count

  module _ (sorter : Sorter (ScoredPage D)) where
    -- `MLPolicy` goes through the candidates in the order that the sorter puts them in and judges each.
    -- While slots are free, it leaves out one that scores below the fill threshold, and gives any
    -- other a slot. When none is free, it leaves out one below the detector's absolute threshold,
    -- and lets another take the place of the first fast page that is left, if that page's
    -- score with the promotion margin added is below the candidate's, and is below the
    -- candidate's with the demotion margin subtracted. It promotes and demotes these pages in
    -- this order and no others, and stops at the end of the candidates, when the batch is full, or, with
    -- no slot free, at a candidate not below the absolute threshold that finds no fast page left or
    -- fails one of the margins against the first.
    pub ml_plan-Verdicts :
        (p : MlPolicy D)
        → Verdicts
            (λ c. c.page_va)
            cfg.max_promotions
            (MlRight p)
            (MlHeld p)
            (sorter.sort hotter (slow_candidates cfg.slow_node score_page mgr.pages_meta))
            (empty_plan free_slots
              (sorter.sort colder (fast_scored cfg.slow_node score_page mgr.pages_meta)))
            (ml_plan sorter cfg p mgr)
    unfolding ml_plan
    ml_plan-Verdicts p = Verdicts-weaken (ByTests-MlRight p) (HeldUp-MlHeld p) (
        make_plan-Verdicts (λ c. c.page_va) (below_threshold p) (beats_by_margin p)
          cfg.max_promotions
          (sorter.sort hotter (slow_candidates cfg.slow_node score_page mgr.pages_meta))
          (sorter.sort colder (fast_scored cfg.slow_node score_page mgr.pages_meta)) free_slots)

    -- Each of the three kinds of plan keeps to the batch cap and to the room in the fast tier: its
    -- promotions exceed its demotions by the free slots that it fills and no more.
    pub plans-WithinLimits :
        (pages : Sorter (PageMetadata D)) (comp : PageMetadata D → PageMetadata D → Bool)
        (p : MlPolicy D)
        → WithinLimits free_slots cfg.max_promotions (baseline_plan pages cfg comp mgr)
          × WithinLimits free_slots cfg.max_promotions (ml_plan sorter cfg p mgr)
          × WithinLimits free_slots cfg.max_promotions (heuristic_plan sorter cfg mgr)
    unfolding ml_plan heuristic_plan baseline_plan
    plans-WithinLimits pages comp p = (
      make_plan-WithinLimits _ _ _ cfg.max_promotions _ _ free_slots,
      make_plan-WithinLimits _ _ _ cfg.max_promotions _ _ free_slots,
      make_plan-WithinLimits _ _ _ cfg.max_promotions _ _ free_slots,
    )
