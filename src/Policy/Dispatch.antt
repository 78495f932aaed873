-- ===== src/Policy/Dispatch.antt =====
-- `get_policy` of daemon/policy.cpp and the virtual methods of daemon/policy.h.
use os_research_codebase.Prelude.{ℕ, if◌then◌else◌, Option, none, some}
use Prim.Native.String.{String}
use text.Mathlib.Text.{◌==◌ as str_eq}
use os_research_codebase.Float.{Float}
use os_research_codebase.Config.{Config}
use os_research_codebase.Cusum.{new_detector, set_margins}
use os_research_codebase.Page.{PageMetadata}
use os_research_codebase.Sorting.{Sorter}
use os_research_codebase.TierManager.{TierManager, Kernel}
use os_research_codebase.Policy.Baseline.{
  lru_hotter, lfu_hotter, decaying_lfu_hotter, promote_and_demote,
}
use os_research_codebase.Policy.Scored.{MlPolicy, ScoredPage, ml_execute, heuristic_execute}
use os_research_codebase.Policy.Random.{random_execute}

-- An object of one of the subclasses of `Policy`.
pub data Policy (D : Type 0) : Type 0 where
  lru lfu decaying_lfu heuristic random : Policy D
  ml : MlPolicy D → Policy D

module _ {D : Type 0} ⦃f : Float D⦄ where
  -- `none` is the null pointer.
  unfoldable pub get_policy : String → Option (Policy D)
  get_policy name =
      if str_eq name "lru"
      then some lru
      else if str_eq name "lfu"
      then some lfu
      else if str_eq name "decaying_lfu"
      then some decaying_lfu
      else if str_eq name "ml"
      then some (ml (record { fill_threshold = f.decimal 300 3; cusum = new_detector }))
      else if str_eq name "heuristic"
      then some heuristic
      else if str_eq name "random"
      then some random
      else none

  -- `Policy::set_margins`, which only `MLPolicy` overrides.
  unfoldable pub set_policy_margins : D → D → Policy D → Policy D
  set_policy_margins abs demote (ml p) = ml (record p { cusum = set_margins p.cusum abs demote })
  set_policy_margins abs demote p = p

  -- `Policy::set_fill_threshold`, which only `MLPolicy` overrides.
  unfoldable pub set_policy_fill_threshold : D → Policy D → Policy D
  set_policy_fill_threshold threshold (ml p) = ml (record p { fill_threshold = threshold })
  set_policy_fill_threshold threshold p = p

  -- `Policy::execute`, with the sorters and the random draws of the epoch.
  unfoldable pub execute :
      Sorter (PageMetadata D)
      → Sorter (ScoredPage D)
      → (ℕ → ℕ → ℕ)
      → Config
      → Kernel D
      → Policy D
      → TierManager D
      → Policy D × TierManager D
  execute pages scored draw cfg kernel lru mgr =
      (lru, promote_and_demote pages cfg lru_hotter kernel mgr)
  execute pages scored draw cfg kernel lfu mgr =
      (lfu, promote_and_demote pages cfg lfu_hotter kernel mgr)
  execute pages scored draw cfg kernel decaying_lfu mgr =
      (decaying_lfu, promote_and_demote pages cfg decaying_lfu_hotter kernel mgr)
  execute pages scored draw cfg kernel heuristic mgr =
      (heuristic, heuristic_execute scored cfg kernel mgr)
  execute pages scored draw cfg kernel random mgr = (random, random_execute draw cfg kernel mgr)
  execute pages scored draw cfg kernel (ml p) mgr =
      let (p', mgr') = ml_execute scored cfg kernel p mgr in (ml p', mgr')
