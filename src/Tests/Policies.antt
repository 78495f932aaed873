-- ===== src/Tests/Policies.antt =====
-- The policies, and a round of the daemon, on three pages.
use mathlib.Core.List.{Perm}
use os_research_codebase.Prelude.{
  ◌≤◌, ◌≡◌, refl, Bool, true, All, List, [], ◌∷◌, ◌++◌, map, ℤ, pos, arith, length, pos_part, ◌-ℤ◌,
  ◌+ℤ◌,
}
use os_research_codebase.Float.Fixed.{fixed}
use os_research_codebase.Page.{PageMetadata}
use os_research_codebase.Sorting.{StrictWeak, reverse_StrictWeak}
use os_research_codebase.Cusum.{new_detector}
use os_research_codebase.Policy.Plan.{empty_plan}
use os_research_codebase.Policy.Plan.Limits.{WithinLimits}
use os_research_codebase.Policy.Plan.Verdicts.{Verdicts}
use os_research_codebase.Policy.Baseline.{lfu_hotter, decaying_lfu_hotter, baseline_plan}
use os_research_codebase.Policy.Baseline.Orders.{every_page, decaying_lfu_hotter-not_StrictWeak}
use os_research_codebase.Policy.Baseline.Greedy.{Greedy}
use os_research_codebase.Policy.Scored.{
  ScoredPage, MlPolicy, score_page, slow_candidates, fast_scored, hotter, colder, ml_plan,
  heuristic_plan,
}
use os_research_codebase.Policy.Scored.Decisions.{
  MlRight, MlHeld, ml_plan-Verdicts, plans-WithinLimits,
}
use os_research_codebase.Policy.Random.{choose_demotions, random_demotions, random_promotions}
use os_research_codebase.Policy.Random.Choice.{random_limits, choose_demotions-perm}
use os_research_codebase.Policy.Dispatch.{Policy, execute}
use os_research_codebase.Policy.Capacity.{FastTierBounded}
use os_research_codebase.Policy.Sorts.{PolicySorts}
use os_research_codebase.Daemon.Growth.{asked, execute_growth}
use os_research_codebase.Tests.Samples.{
  page, hot_page, warm_page, busy, small, willing, first_drawn, by_page, by_score,
}
use os_research_codebase.Tests.Tracking.{busy-Synced}

abbrev fresh : MlPolicy ℤ
fresh = record { fill_threshold = pos 300000; cusum = new_detector }

-- The scores of the example are integers, whose order is strict and weak.
any_score : ScoredPage ℤ → Bool
any_score s = true

hotter-StrictWeak : StrictWeak any_score hotter
unfolding fixed
hotter-StrictWeak = record {
  asymm = λ a b va vb h. ground arith;
  split = λ a b c va vb vc h. ground arith;
}

every_score : (ss : List (ScoredPage ℤ)) → All (λ s. any_score s ≡ true) ss
unfolding any_score
every_score [] = tt
every_score (s ∷ ss) = (refl, every_score ss)

heuristic_sorts : PolicySorts small Policy.heuristic busy
heuristic_sorts = (
  (any_score, hotter-StrictWeak, every_score _),
  (any_score, reverse_StrictWeak hotter-StrictWeak, every_score _),
)

execute_growth_example :
    FastTierBounded
      (pos 1)
      (asked by_page by_score small refl first_drawn Policy.heuristic busy)
      busy
      (execute by_page by_score first_drawn small willing Policy.heuristic busy).1
execute_growth_example =
    execute_growth by_page by_score small refl first_drawn willing Policy.heuristic busy busy-Synced
      heuristic_sorts

ml_plan-Verdicts_example :
    Verdicts
      (λ c. c.page_va)
      (pos 32)
      (MlRight fresh)
      (MlHeld fresh)
      (by_score.sort hotter (slow_candidates (pos 1) score_page busy.pages_meta))
      (empty_plan
        (pos 1 -ℤ pos 1)
        (by_score.sort colder (fast_scored (pos 1) score_page busy.pages_meta)))
      (ml_plan by_score small fresh busy)
ml_plan-Verdicts_example = ml_plan-Verdicts small busy by_score fresh

plans-WithinLimits_example :
    WithinLimits (pos 1 -ℤ pos 1) (pos 32) (baseline_plan by_page small lfu_hotter busy)
    × WithinLimits (pos 1 -ℤ pos 1) (pos 32) (ml_plan by_score small fresh busy)
    × WithinLimits (pos 1 -ℤ pos 1) (pos 32) (heuristic_plan by_score small busy)
plans-WithinLimits_example = plans-WithinLimits small busy by_score by_page lfu_hotter fresh

-- Frequencies in steps of 0.0008, with falling counts.
abbrev slow_riser : ℤ → ℤ → PageMetadata ℤ
slow_riser count frequency = page 4096 (pos 1) true (pos 1) count frequency

decaying_lfu_hotter-not_StrictWeak_example :
    ¬ StrictWeak {A = PageMetadata ℤ} every_page decaying_lfu_hotter
unfolding fixed
decaying_lfu_hotter-not_StrictWeak_example =
    decaying_lfu_hotter-not_StrictWeak every_page (slow_riser (pos 3) (pos 0))
      (slow_riser (pos 2) (pos 800)) (slow_riser (pos 1) (pos 1600)) refl refl refl (refl, refl)
      (refl, refl) refl refl (omega arith) (omega arith)

random_limits_example :
    (length (random_demotions first_drawn small busy) ≤ pos_part (pos 32))
    × (length (random_promotions first_drawn small busy) ≤ pos_part (pos 32))
    × (length (random_promotions first_drawn small busy)
        ≤ pos_part (pos 1 -ℤ pos 1 +ℤ pos (length (random_demotions first_drawn small busy))))
random_limits_example = random_limits first_drawn small busy

choose_demotions-perm_example :
    (left : List (PageMetadata ℤ)) × Perm
      (8192 ∷ 12288 ∷ [])
      (choose_demotions first_drawn 0 1 (hot_page ∷ warm_page ∷ []) ++ map (λ m. m.page_va) left)
choose_demotions-perm_example = choose_demotions-perm first_drawn 0 1 (hot_page ∷ warm_page ∷ [])
