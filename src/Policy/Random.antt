-- ===== src/Policy/Random.antt =====
-- `RandomPolicy` of daemon/policy.cpp, over the values that its generator draws.
pub mod Choice
use os_research_codebase.Prelude.{
  ℕ, zero, suc, ◌-◌, ◌+◌, ◌≡◌, Bool, true, false, if◌then◌else◌, List, [], ◌∷◌, ◌++◌, Option, none,
  some, ℤ, pos, pos_part, ◌==ℤ◌, ltb_ℤ, leb_ℤ, ◌-ℤ◌, ◌+ℤ◌, length,
}
use os_research_codebase.Config.{Config}
use os_research_codebase.Float.{Float}
use os_research_codebase.OrderedMap.{OrderedMap}
use os_research_codebase.Page.{PageMetadata}
use os_research_codebase.TierManager.{TierManager, Kernel}
use os_research_codebase.TierManager.Migration.{migrate_pages}

module _ {A : Type 0} where
  -- `xs.back()` of a list that begins with `x`.
  unfoldable pub back : A → List A → A
  back x [] = x
  back x (y ∷ ys) = back y ys

  unfoldable pub pop_back : A → List A → List A
  pop_back x [] = []
  pop_back x (y ∷ ys) = x ∷ pop_back y ys

  -- `xs[idx] = xs.back(); xs.pop_back();` and the element that stood at `idx`, on a list that
  -- begins with `x`.
  unfoldable pub swap_remove : ℕ → A → List A → A × List A
  unfolding back pop_back
  swap_remove zero x [] = (x, [])
  swap_remove zero x (y ∷ ys) = (x, back y ys ∷ pop_back y ys)
  swap_remove (suc i) x [] = (x, [])
  swap_remove (suc i) x (y ∷ ys) = let (chosen, rest) = swap_remove i y ys in (chosen, x ∷ rest)

module _ {D : Type 0} where
  -- The pages on one node, in the map's order.
  unfoldable pub pages_on : ℤ → OrderedMap (PageMetadata D) → List (PageMetadata D)
  pages_on node [] = []
  pages_on node ((va, m) ∷ rest) =
      if m.current_node ==ℤ node then m ∷ pages_on node rest else pages_on node rest

  -- The demotion loop, with `rounds` left: the addresses chosen, in order. `draw i n` is the value
  -- that the generator gives in round `i` from 0 to `n`.
  unfoldable pub choose_demotions : (ℕ → ℕ → ℕ) → ℕ → ℕ → List (PageMetadata D) → List ℕ
  unfolding swap_remove
  choose_demotions draw i zero cands = []
  choose_demotions draw i (suc rounds) [] = []
  choose_demotions draw i (suc rounds) (m ∷ ms) =
      let (chosen, rest) = swap_remove (draw i (length ms)) m ms in
      chosen.page_va ∷ choose_demotions draw (suc i) rounds rest

  -- The promotion loop, which also stops when no slot is free.
  unfoldable pub choose_promotions : (ℕ → ℕ → ℕ) → ℕ → ℕ → ℤ → List (PageMetadata D) → List ℕ
  unfolding swap_remove
  choose_promotions draw i zero free cands = []
  choose_promotions draw i (suc rounds) free [] = []
  choose_promotions draw i (suc rounds) free (m ∷ ms) =
      let (chosen, rest) = swap_remove (draw i (length ms)) m ms in
      let others = choose_promotions draw (suc i) rounds (free -ℤ pos 1) rest in
      if ltb_ℤ (pos 0) free then chosen.page_va ∷ others else []

module _ {D : Type 0} ⦃f : Float D⦄ (draw : ℕ → ℕ → ℕ) (cfg : Config) where
  unfoldable pub random_demotions : TierManager D → List ℕ
  random_demotions mgr =
      if leb_ℤ (cfg.fast_tier_capacity -ℤ pos mgr.fast_tier_count) (pos 0)
      then choose_demotions draw 0 (pos_part cfg.max_demotions) (pages_on (pos 0) mgr.pages_meta)
      else []

  -- The generator goes on behind the values that the demotions drew.
  unfoldable pub random_promotions : TierManager D → List ℕ
  unfolding random_demotions
  random_promotions mgr =
      let drawn = length (random_demotions mgr) in
      choose_promotions draw drawn (pos_part cfg.max_promotions)
        (cfg.fast_tier_capacity -ℤ pos mgr.fast_tier_count +ℤ pos drawn)
        (pages_on cfg.slow_node mgr.pages_meta)

  -- `RandomPolicy::execute`
  unfoldable pub random_execute : Kernel D → TierManager D → TierManager D
  random_execute kernel mgr =
      migrate_pages kernel (random_promotions mgr) (pos 0)
        (migrate_pages kernel (random_demotions mgr) cfg.slow_node mgr)
