-- ===== src/Policy/Scored.antt =====
-- The score-based policies of daemon/policy.cpp, `MLPolicy` and `HeuristicPolicy`, and the weights
-- of daemon/ml_weights.h.
pub mod Decisions
use os_research_codebase.Prelude.{
  ℕ, ◌≡◌, Bool, true, false, not, ◌&&◌, if◌then◌else◌, leb, List, [], ◌∷◌, ◌++◌, ℤ, pos, ◌==ℤ◌,
  ltb_ℤ, leb_ℤ, ◌-ℤ◌, ◌+◌, length,
}
use os_research_codebase.Float.{Float}
use os_research_codebase.Config.{Config}
use os_research_codebase.OrderedMap.{OrderedMap}
use os_research_codebase.Page.{PageMetadata}
use os_research_codebase.Sorting.{Sorter}
use os_research_codebase.TierManager.{TierManager, Kernel}
use os_research_codebase.TierManager.Migration.{migrate_pages}
use os_research_codebase.Cusum.{
  Detector, update, set_margins, new_detector, get_promote_margin, get_demote_margin,
  get_absolute_threshold,
}
use os_research_codebase.Policy.Plan.{Plan, empty_plan, make_plan}

pub record ScoredPage (D : Type 0) : Type 0 where
  pub page_va : ℕ
  pub score : D

-- One column of the arrays of ml_weights.h, and the feature that it weighs.
record Feature (D : Type 0) : Type 0 where
  value : D
  weight : D
  mean : D
  std : D

-- The members of `MLPolicy`.
pub record MlPolicy (D : Type 0) : Type 0 where
  pub fill_threshold : D
  pub cusum : Detector D

module _ {D : Type 0} ⦃f : Float D⦄ where
  open f use {of_int, decimal, add, sub, mul, div, neg, exp, log1p, lt}

  features : PageMetadata D → List (Feature D)
  features m =
      record {
        value = log1p (of_int m.access_count);
        weight = decimal 34519309975 10;
        mean = decimal 24624731145 10;
        std = decimal 25588025207 10;
      }
      ∷ record {
        value = m.momentum;
        weight = decimal 258507329 10;
        mean = decimal 8084562145 10;
        std = decimal 26504021120045 10;
      }
      ∷ record {
        value = m.access_frequency_ratio;
        weight = decimal 11389664967 10;
        mean = decimal 58085369 10;
        std = decimal 541263311 10;
      }
      ∷ record {
        value = of_int (pos m.epochs_since_access);
        weight = neg (decimal 89708077413 10);
        mean = decimal 1291073731511 10;
        std = decimal 2926879680970 10;
      }
      ∷ []

  -- The loop of the dot product.
  dot_product : D → List (Feature D) → D
  dot_product dot [] = dot
  dot_product dot (x ∷ xs) =
      dot_product
        (add dot (
          mul x.weight
            (if lt (decimal 1 10) x.std then div (sub x.value x.mean) x.std else of_int (pos 0))))
        xs

  sigmoid : D → D
  sigmoid dot =
      if lt (decimal 200 1) dot
      then decimal 10 1
      else if lt dot (neg (decimal 200 1))
      then decimal 0 1
      else div (decimal 10 1) (add (decimal 10 1) (exp (neg dot)))

  -- `MLPolicy::score_page`
  unfoldable pub score_page : PageMetadata D → D
  unfolding features dot_product sigmoid
  score_page m = sigmoid (dot_product (neg (decimal 45563145866 10)) (features m))

  -- The score of `HeuristicPolicy::execute`.
  unfoldable pub heuristic_score : PageMetadata D → D
  heuristic_score m =
      add
        (if leb_ℤ (pos 1) m.access_count && leb m.epochs_since_access 5
          then decimal 10 1
          else decimal 0 1)
        (mul (of_int m.access_count) (decimal 1 3))

  module _ (slow_node : ℤ) (score : PageMetadata D → D) where
    -- The loop of both `execute`s: scored slow pages that were accessed in this epoch.
    unfoldable pub slow_candidates : OrderedMap (PageMetadata D) → List (ScoredPage D)
    slow_candidates [] = []
    slow_candidates ((va, m) ∷ rest) =
        if m.current_node ==ℤ slow_node && m.accessed_this_epoch
        then record { page_va = m.page_va; score = score m } ∷ slow_candidates rest
        else slow_candidates rest

    -- The same loop's other list. A page of the slow node is not looked at again.
    unfoldable pub fast_scored : OrderedMap (PageMetadata D) → List (ScoredPage D)
    fast_scored [] = []
    fast_scored ((va, m) ∷ rest) =
        if not (m.current_node ==ℤ slow_node) && m.current_node ==ℤ pos 0
        then record { page_va = m.page_va; score = score m } ∷ fast_scored rest
        else fast_scored rest

  abbrev pub hotter : ScoredPage D → ScoredPage D → Bool
  hotter a b = lt b.score a.score

  abbrev pub colder : ScoredPage D → ScoredPage D → Bool
  colder a b = lt a.score b.score

  -- The `continue` of `MLPolicy::execute`.
  unfoldable pub below_threshold : MlPolicy D → ℤ → ScoredPage D → Bool
  below_threshold p free c =
      lt c.score (if ltb_ℤ (pos 0) free then p.fill_threshold else get_absolute_threshold p.cusum)

  -- The test of a swap in `MLPolicy::execute`, with both margins.
  unfoldable pub beats_by_margin : MlPolicy D → ScoredPage D → ScoredPage D → Bool
  beats_by_margin p c v =
      lt (add v.score (get_promote_margin p.cusum)) c.score
      && lt v.score (sub c.score (get_demote_margin p.cusum))

  -- The `continue` of `HeuristicPolicy::execute`.
  abbrev pub is_cold : ℤ → ScoredPage D → Bool
  is_cold free c = lt c.score (decimal 5 1)

  -- The test of its swaps: it looks at the victim alone.
  abbrev pub victim_is_cold : ScoredPage D → ScoredPage D → Bool
  victim_is_cold c v = lt v.score (decimal 5 1)

  module _ (sorter : Sorter (ScoredPage D)) (cfg : Config) where
    -- What the loop of `MLPolicy::execute` decides.
    unfoldable pub ml_plan : MlPolicy D → TierManager D → Plan (ScoredPage D)
    unfolding below_threshold beats_by_margin
    ml_plan p mgr =
        make_plan (λ c. c.page_va) (below_threshold p) (beats_by_margin p) cfg.max_promotions
          (sorter.sort hotter (slow_candidates cfg.slow_node score_page mgr.pages_meta))
          (empty_plan (cfg.fast_tier_capacity -ℤ pos mgr.fast_tier_count)
            (sorter.sort colder (fast_scored cfg.slow_node score_page mgr.pages_meta)))

    -- `MLPolicy::execute`; the microbenchmark's output is left out.
    unfoldable pub ml_execute : Kernel D → MlPolicy D → TierManager D → MlPolicy D × TierManager D
    ml_execute kernel p mgr =
        let plan = ml_plan p mgr in
        let moves = length plan.to_promote + length plan.to_demote in
        (
          record p { cusum = (update p.cusum (of_int (pos moves))).0 },
          migrate_pages kernel plan.to_promote (pos 0)
              (migrate_pages kernel plan.to_demote cfg.slow_node mgr),
        )

    unfoldable pub heuristic_plan : TierManager D → Plan (ScoredPage D)
    heuristic_plan mgr =
        make_plan (λ c. c.page_va) is_cold victim_is_cold cfg.max_promotions
          (sorter.sort hotter (slow_candidates cfg.slow_node heuristic_score mgr.pages_meta))
          (empty_plan (cfg.fast_tier_capacity -ℤ pos mgr.fast_tier_count)
            (sorter.sort colder (fast_scored cfg.slow_node heuristic_score mgr.pages_meta)))

    -- `HeuristicPolicy::execute`
    unfoldable pub heuristic_execute : Kernel D → TierManager D → TierManager D
    heuristic_execute kernel mgr =
        let plan = heuristic_plan mgr in
        migrate_pages kernel plan.to_promote (pos 0)
          (migrate_pages kernel plan.to_demote cfg.slow_node mgr)
