-- ===== src/Policy/Tracked.antt =====
-- A policy whose calls of `std::sort` are defined moves only pages that the tier manager tracks.
use mathlib.Core.List.{Perm}
use mathlib.Core.List.Perm
use os_research_codebase.Prelude.{
  ℕ, ◌≡◌, refl, Bool, true, false, List, [], ◌++◌, map, ℤ, pos, All, subst, sym, ◌∙◌, ap,
  List-cases, inl, inr, ◌-ℤ◌, pos_part, leb_ℤ, if◌then◌else◌,
}
use mathlib.Core.List.{map-append}
use os_research_codebase.Float.{Float}
use os_research_codebase.Config.{Config}
use os_research_codebase.Page.{PageMetadata}
use os_research_codebase.Sorting.{Sorter, Sortable, AllValid-perm, All-prefix}
use os_research_codebase.TierManager.{TierManager, Kernel}
use os_research_codebase.TierManager.Tidy.{Tidy, Tracked, is_tracked, pages-Tracked}
use os_research_codebase.TierManager.Tidy.Methods.{migrate_pages-Tidy, migrate_pages-Tracked}
use os_research_codebase.TierManager.Migration.{migrate_pages}
use os_research_codebase.Policy.Plan.{Plan, empty_plan, make_plan}
use os_research_codebase.Policy.Plan.Moves.{Moves, candidates_of, victims_of, make_plan-Moves}
use os_research_codebase.Policy.Baseline.{
  fast_pages, slow_hot_pages, lru_hotter, lfu_hotter, decaying_lfu_hotter, baseline_plan,
  promote_and_demote,
}
use os_research_codebase.Policy.Sorts.{
  BaselineSorts, ScoredSorts, PolicySorts, lru-BaselineSorts, lfu-BaselineSorts,
}
use os_research_codebase.Policy.Scored.{
  ScoredPage, fast_scored, slow_candidates, hotter, colder, score_page, heuristic_score,
  below_threshold, beats_by_margin, is_cold, victim_is_cold, ml_plan, ml_execute, heuristic_plan,
  heuristic_execute,
}
use os_research_codebase.Policy.Random.{
  pages_on, random_demotions, random_promotions, random_execute,
}
use os_research_codebase.Policy.Gathered.{
  fast_pages-All, slow_hot_pages-All, pages_on-All, slow_candidates-All, fast_scored-All,
  All-sublistᴰ,
}
use os_research_codebase.Policy.Random.Choice.{choose_demotions-perm, choose_promotions-perm}
use os_research_codebase.Policy.Dispatch.{
  Policy, lru, lfu, decaying_lfu, heuristic, random, ml, execute,
}

module _ {D : Type 0} ⦃f : Float D⦄ (cfg : Config) (kernel : Kernel D) (mgr : TierManager D)
    (tidy : Tidy mgr) where
  abbrev AllTracked : List ℕ → Type 0
  AllTracked = All (Tracked mgr.pages_meta)

  each-Tracked : All (λ e. Tracked mgr.pages_meta e.1.page_va) mgr.pages_meta
  each-Tracked = pages-Tracked mgr.pages_meta tidy.keyed

  sorted-AllTracked :
      {A : Type 0} (va : A → ℕ) (sorter : Sorter A) (comp : A → A → Bool) (xs : List A)
      → Sortable comp xs
      → AllTracked (map va xs)
      → AllTracked (map va (sorter.sort comp xs))
  sorted-AllTracked va sorter comp xs s h =
      AllValid-perm (is_tracked mgr.pages_meta) (map va xs) (map va (sorter.sort comp xs))
        (Perm.symm (Perm.map va (sorter.sort-perm comp xs s))) h

  -- The migrations of tracked pages that end each policy's run.
  carried_out-Tidy :
      (to_demote to_promote : List ℕ)
      → AllTracked to_demote
      → AllTracked to_promote
      → Tidy (
          migrate_pages kernel to_promote
            (pos 0)
            (migrate_pages kernel to_demote cfg.slow_node mgr))
  carried_out-Tidy to_demote to_promote d p =
      migrate_pages-Tidy kernel to_promote (pos 0)
        (migrate_pages kernel to_demote cfg.slow_node mgr)
        (migrate_pages-Tidy kernel to_demote cfg.slow_node mgr tidy d)
        (migrate_pages-Tracked kernel to_demote cfg.slow_node mgr to_promote p)

  planned-Tidy :
      {A : Type 0} (va : A → ℕ) (skip : ℤ → A → Bool) (beats : A → A → Bool)
      (candidates victims : List A) (free : ℤ)
      → AllTracked (map va candidates)
      → AllTracked (map va victims)
      → (plan : Plan A)
      → plan ≡ make_plan va skip beats cfg.max_promotions candidates (empty_plan free victims)
      → Tidy (
          migrate_pages kernel plan.to_promote
            (pos 0)
            (migrate_pages kernel plan.to_demote cfg.slow_node mgr))
  planned-Tidy {A} va skip beats candidates victims free c v plan e =
      carried_out-Tidy plan.to_demote plan.to_promote
        (subst AllTracked (sym (ap (λ (q : Plan A). q.to_demote) e ∙ made.demoted)) (
          All-prefix (Tracked mgr.pages_meta) (map va (victims_of made.moves)) (map va rest) (
            subst AllTracked
              (ap (map va) (sym made.from_front) ∙ map-append va (victims_of made.moves) rest) v)))
        (subst AllTracked (sym (ap (λ (q : Plan A). q.to_promote) e ∙ made.promoted)) (
          All-sublistᴰ (Tracked mgr.pages_meta) va (candidates_of made.moves) candidates
            made.in_order c))
    where
      made :
          Moves va skip beats candidates
            (empty_plan free victims)
            (make_plan va skip beats cfg.max_promotions candidates (empty_plan free victims))
      made = make_plan-Moves va skip beats cfg.max_promotions candidates victims free

      rest : List A
      rest =
          (make_plan va skip beats cfg.max_promotions candidates (empty_plan free victims)).victims

  promote_and_demote-Tidy :
      (sorter : Sorter (PageMetadata D)) (comp : PageMetadata D → PageMetadata D → Bool)
      → BaselineSorts comp mgr
      → Tidy (promote_and_demote sorter cfg comp kernel mgr)
  unfolding promote_and_demote baseline_plan
  promote_and_demote-Tidy sorter comp sorts = elim (List-cases (slow_hot_pages mgr.pages_meta)) [
    | inl e ↦ rw (e, promote_and_demote) tidy
    | inr (m, ms, e) ↦
        rw (e, promote_and_demote)
          (planned-Tidy (λ m. m.page_va) (λ free c. false) comp
            (sorter.sort comp (slow_hot_pages mgr.pages_meta))
            (sorter.sort (λ a b. comp b a) (fast_pages mgr.pages_meta))
            (cfg.fast_tier_capacity -ℤ pos mgr.fast_tier_count)
            (sorted-AllTracked (λ m. m.page_va) sorter comp (slow_hot_pages mgr.pages_meta) sorts.0
              (slow_hot_pages-All (Tracked mgr.pages_meta) mgr.pages_meta each-Tracked))
            (sorted-AllTracked (λ m. m.page_va) sorter (λ a b. comp b a) (fast_pages mgr.pages_meta)
              sorts.1 (fast_pages-All (Tracked mgr.pages_meta) mgr.pages_meta each-Tracked))
            (baseline_plan sorter cfg comp mgr) refl)
  ]

  module _ (sorter : Sorter (ScoredPage D)) where
    scored_plan-Tidy :
        (score : PageMetadata D → D) (skip : ℤ → ScoredPage D → Bool)
        (beats : ScoredPage D → ScoredPage D → Bool) (plan : Plan (ScoredPage D))
        → ScoredSorts cfg score mgr
        → plan
          ≡ make_plan
              (λ c. c.page_va)
              skip
              beats
              cfg.max_promotions
              (sorter.sort hotter (slow_candidates cfg.slow_node score mgr.pages_meta))
              (empty_plan
                (cfg.fast_tier_capacity -ℤ pos mgr.fast_tier_count)
                (sorter.sort colder (fast_scored cfg.slow_node score mgr.pages_meta)))
        → Tidy (
            migrate_pages kernel plan.to_promote
              (pos 0)
              (migrate_pages kernel plan.to_demote cfg.slow_node mgr))
    scored_plan-Tidy score skip beats plan sorts e =
        planned-Tidy (λ c. c.page_va) skip beats _ _ _
          (sorted-AllTracked (λ c. c.page_va) sorter hotter
            (slow_candidates cfg.slow_node score mgr.pages_meta) sorts.0
            (slow_candidates-All (Tracked mgr.pages_meta) cfg.slow_node score mgr.pages_meta
              each-Tracked))
          (sorted-AllTracked (λ c. c.page_va) sorter colder
            (fast_scored cfg.slow_node score mgr.pages_meta) sorts.1
            (fast_scored-All (Tracked mgr.pages_meta) cfg.slow_node score mgr.pages_meta
              each-Tracked))
          plan e

  module _ (draw : ℕ → ℕ → ℕ) where
    -- What is chosen at random, with what is left over, makes up the candidates.
    chosen-AllTracked :
        (cands : List (PageMetadata D)) (chosen : List ℕ)
        → (left : List (PageMetadata D)) × Perm
            (map (λ m. m.page_va) cands)
            (chosen ++ map (λ m. m.page_va) left)
        → AllTracked (map (λ m. m.page_va) cands)
        → AllTracked chosen
    chosen-AllTracked cands chosen (left, p) h =
        All-prefix (Tracked mgr.pages_meta) chosen (map (λ m. m.page_va) left)
          (AllValid-perm (is_tracked mgr.pages_meta) _ (chosen ++ map (λ m. m.page_va) left) p h)

    random_demotions-AllTracked : AllTracked (random_demotions draw cfg mgr)
    unfolding random_demotions
    random_demotions-AllTracked =
        either _ (leb_ℤ (cfg.fast_tier_capacity -ℤ pos mgr.fast_tier_count) (pos 0)) (
          chosen-AllTracked (pages_on (pos 0) mgr.pages_meta) _
            (choose_demotions-perm draw 0 (pos_part cfg.max_demotions)
              (pages_on (pos 0) mgr.pages_meta))
            (pages_on-All (Tracked mgr.pages_meta) (pos 0) mgr.pages_meta each-Tracked))
      where
        either : (us : List ℕ) (b : Bool) → AllTracked us → AllTracked (if b then us else [])
        either us true h = h
        either us false h = tt

    random_execute-Tidy : Tidy (random_execute draw cfg kernel mgr)
    unfolding random_execute random_promotions
    random_execute-Tidy =
        carried_out-Tidy (random_demotions draw cfg mgr) (random_promotions draw cfg mgr)
          random_demotions-AllTracked
          (chosen-AllTracked (pages_on cfg.slow_node mgr.pages_meta) _
            (choose_promotions-perm draw _ (pos_part cfg.max_promotions) _
              (pages_on cfg.slow_node mgr.pages_meta))
            (pages_on-All (Tracked mgr.pages_meta) cfg.slow_node mgr.pages_meta each-Tracked))

  -- Whatever the kernel's replies, the run of a policy whose calls of `std::sort` are defined leaves the pages tidy.
  pub execute-Tidy :
      (pages : Sorter (PageMetadata D)) (scored : Sorter (ScoredPage D)) (draw : ℕ → ℕ → ℕ)
      (policy : Policy D)
      → PolicySorts cfg policy mgr
      → Tidy (execute pages scored draw cfg kernel policy mgr).1
  unfolding execute ml_execute heuristic_execute ml_plan heuristic_plan
  execute-Tidy pages scored draw lru sorts =
      promote_and_demote-Tidy pages lru_hotter (lru-BaselineSorts mgr)
  execute-Tidy pages scored draw lfu sorts =
      promote_and_demote-Tidy pages lfu_hotter (lfu-BaselineSorts mgr)
  execute-Tidy pages scored draw decaying_lfu sorts =
      promote_and_demote-Tidy pages decaying_lfu_hotter sorts
  execute-Tidy pages scored draw heuristic sorts =
      scored_plan-Tidy scored heuristic_score is_cold victim_is_cold (heuristic_plan scored cfg mgr)
        sorts refl
  execute-Tidy pages scored draw random sorts = random_execute-Tidy draw
  execute-Tidy pages scored draw (ml p) sorts =
      scored_plan-Tidy scored score_page (below_threshold p) (beats_by_margin p)
        (ml_plan scored cfg p mgr) sorts refl
