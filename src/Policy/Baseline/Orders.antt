-- ===== src/Policy/Baseline/Orders.antt =====
-- Which of the comparisons are strict weak orders, as `std::sort` requires.
use os_research_codebase.Prelude.{◌≡◌, Bool, true, false, ◌<ℤ◌, arith}
use os_research_codebase.Float.{Float}
use os_research_codebase.Page.{PageMetadata}
use os_research_codebase.Sorting.{StrictWeak}
use os_research_codebase.Policy.Baseline.{lru_hotter, lfu_hotter, decaying_lfu_hotter}

abbrev pub every_page : {D : Type 0} → PageMetadata D → Bool
every_page m = true

-- The LRU comparison is a strict weak order on all pages.
pub lru_hotter-StrictWeak : (D : Type 0) → StrictWeak {A = PageMetadata D} every_page lru_hotter
unfolding lru_hotter
lru_hotter-StrictWeak D = record {
  asymm = λ a b va vb h. ground arith;
  split = λ a b c va vb vc h. ground arith;
}

-- The LFU comparison is a strict weak order on all pages.
pub lfu_hotter-StrictWeak : (D : Type 0) → StrictWeak {A = PageMetadata D} every_page lfu_hotter
unfolding lfu_hotter
lfu_hotter-StrictWeak D = record {
  asymm = λ a b va vb h. ground arith;
  split = λ a b c va vb vc h. ground arith;
}

module _ {D : Type 0} ⦃f : Float D⦄ where
  open f use {decimal, sub, neg, lt}

  -- The frequencies lie within 0.001 of one another.
  abbrev pub Close : PageMetadata D → PageMetadata D → Type 0
  Close a b =
      (lt (decimal 1 3) (sub a.smooth_frequency b.smooth_frequency) ≡ false)
      × (lt (sub a.smooth_frequency b.smooth_frequency) (neg (decimal 1 3)) ≡ false)

  -- Three pages whose frequencies rise in steps below the tolerance, to a sum above it, while the
  -- counts fall, are hotter than one another in a circle.
  pub decaying_lfu_hotter_cycle :
      (a b c : PageMetadata D)
      → Close a b
      → Close b c
      → lt (decimal 1 3) (sub c.smooth_frequency a.smooth_frequency) ≡ true
      → lt a.smooth_frequency c.smooth_frequency ≡ true
      → b.access_count <ℤ a.access_count
      → c.access_count <ℤ b.access_count
      → (decaying_lfu_hotter a b ≡ true)
        × (decaying_lfu_hotter b c ≡ true)
        × (decaying_lfu_hotter c a ≡ true)
  unfolding decaying_lfu_hotter
  decaying_lfu_hotter_cycle a b c ab bc wide below p q = ground arith

  -- The comparison of the decaying LFU policy is no strict weak order on pages that include three
  -- whose frequencies rise in two steps within the tolerance of 0.001, by more than that together,
  -- while their counts fall.
  pub decaying_lfu_hotter-not_StrictWeak :
      (valid : PageMetadata D → Bool) (a b c : PageMetadata D)
      → valid a ≡ true
      → valid b ≡ true
      → valid c ≡ true
      → Close a b
      → Close b c
      → lt (decimal 1 3) (sub c.smooth_frequency a.smooth_frequency) ≡ true
      → lt a.smooth_frequency c.smooth_frequency ≡ true
      → b.access_count <ℤ a.access_count
      → c.access_count <ℤ b.access_count
      → ¬ StrictWeak valid decaying_lfu_hotter
  decaying_lfu_hotter-not_StrictWeak valid a b c va vb vc ab bc wide below p q w = ground (
    arith,
    decaying_lfu_hotter_cycle a b c ab bc wide below p q,
    w.asymm a b va vb,
    w.asymm b c vb vc,
    w.split c b a vc vb va,
  )
