-- ===== src/Policy/Gathered.antt =====
-- What the loops of the policies gather, and what is left of a property of all the pages.
use mathlib.Core.List.{Sublistᴰ}
use os_research_codebase.Prelude.{ℕ, List, [], ◌∷◌, map, ℤ, All, subst, sym, arith}
use os_research_codebase.Float.{Float}
use os_research_codebase.OrderedMap.{OrderedMap}
use os_research_codebase.Page.{PageMetadata}
use os_research_codebase.Policy.Baseline.{fast_pages, slow_hot_pages}
use os_research_codebase.Policy.Scored.{fast_scored, slow_candidates}
use os_research_codebase.Policy.Random.{pages_on}

-- What the loops that gather pages gather has whatever all the pages have.
module _ {D : Type 0} (P : ℕ → Type 0) where
  abbrev pub Each : OrderedMap (PageMetadata D) → Type 0
  Each = All (λ e. P e.1.page_va)

  pub fast_pages-All :
      (pages : OrderedMap (PageMetadata D))
      → Each pages
      → All P (map (λ m. m.page_va) (fast_pages pages))
  unfolding fast_pages
  fast_pages-All [] h = tt
  fast_pages-All ((va, m) ∷ rest) (h, hs) = ground (arith, fast_pages-All rest hs)

  pub slow_hot_pages-All :
      (pages : OrderedMap (PageMetadata D))
      → Each pages
      → All P (map (λ m. m.page_va) (slow_hot_pages pages))
  unfolding slow_hot_pages
  slow_hot_pages-All [] h = tt
  slow_hot_pages-All ((va, m) ∷ rest) (h, hs) = ground (arith, slow_hot_pages-All rest hs)

  pub pages_on-All :
      (node : ℤ) (pages : OrderedMap (PageMetadata D))
      → Each pages
      → All P (map (λ m. m.page_va) (pages_on node pages))
  unfolding pages_on
  pages_on-All node [] h = tt
  pages_on-All node ((va, m) ∷ rest) (h, hs) = ground (arith, pages_on-All node rest hs)

  module _ ⦃f : Float D⦄ (slow_node : ℤ) (score : PageMetadata D → D) where
    pub slow_candidates-All :
        (pages : OrderedMap (PageMetadata D))
        → Each pages
        → All P (map (λ c. c.page_va) (slow_candidates slow_node score pages))
    unfolding slow_candidates
    slow_candidates-All [] h = tt
    slow_candidates-All ((va, m) ∷ rest) (h, hs) = ground (arith, slow_candidates-All rest hs)

    pub fast_scored-All :
        (pages : OrderedMap (PageMetadata D))
        → Each pages
        → All P (map (λ c. c.page_va) (fast_scored slow_node score pages))
    unfolding fast_scored
    fast_scored-All [] h = tt
    fast_scored-All ((va, m) ∷ rest) (h, hs) = ground (arith, fast_scored-All rest hs)

pub All-sublistᴰ :
    {A : Type 0} (P : ℕ → Type 0) (va : A → ℕ) (xs ys : List A)
    → Sublistᴰ xs ys
    → All P (map va ys)
    → All P (map va xs)
All-sublistᴰ P va xs ys Sublistᴰ.slnil h = tt
All-sublistᴰ P va xs ys (Sublistᴰ.cons {l₂ = l₂} s) (h, hs) = All-sublistᴰ P va xs l₂ s hs
All-sublistᴰ P va xs ys (Sublistᴰ.cons-cons {l₁ = l₁} {l₂ = l₂} e s) (h, hs) =
    (subst (λ x. P (va x)) (sym e) h, All-sublistᴰ P va l₁ l₂ s hs)
