-- ===== src/Policy/Addresses.antt =====
-- The victims of a plan are distinct tracked pages of the fast node.
use mathlib.Core.List.{Perm}
use mathlib.Core.List.Perm
use os_research_codebase.Prelude.{
  ℕ, ◌<◌, ◌≡◌, refl, false, List, [], ◌∷◌, ◌++◌, map, ℤ, pos, ◌==ℤ◌, All, subst, sym, arith,
}
use os_research_codebase.Float.{Float}
use os_research_codebase.OrderedMap.{OrderedMap, find, Above, IsAscending}
use os_research_codebase.Page.{PageMetadata}
use os_research_codebase.Sorting.{
  Distinct, AllValid-perm, Distinct-perm, Distinct-prefix, All-prefix, above-Distinct,
}
use os_research_codebase.TierManager.Invariant.{IsKeyed}
use os_research_codebase.TierManager.Migration.Counts.{OnFast, is_on_fast}
use os_research_codebase.Policy.Baseline.{fast_pages}
use os_research_codebase.Policy.Scored.{fast_scored}

module _ {D : Type 0} where
  abbrev pub fast_addresses : OrderedMap (PageMetadata D) → List ℕ
  fast_addresses pages = map (λ m. m.page_va) (fast_pages pages)

  fast_addresses-Above :
      (k : ℕ) (pages : OrderedMap (PageMetadata D))
      → IsKeyed pages
      → Above k pages
      → All (λ u. k < u) (fast_addresses pages)
  unfolding fast_pages
  fast_addresses-Above k [] e a = tt
  fast_addresses-Above k ((j, m) ∷ rest) (e, es) (a, as') =
      ground (arith, fast_addresses-Above k rest es as')

  pub fast_addresses-Distinct :
      (pages : OrderedMap (PageMetadata D))
      → IsKeyed pages
      → IsAscending pages
      → Distinct (fast_addresses pages)
  unfolding fast_pages
  fast_addresses-Distinct [] e a = tt
  fast_addresses-Distinct ((j, m) ∷ rest) (e, es) (b, a) = ground (
    arith,
    fast_addresses-Distinct rest es a,
    above-Distinct j (fast_addresses rest) (fast_addresses-Above j rest es b),
  )

  module _ ⦃f : Float D⦄ where
    behind-OnFast :
        (j : ℕ) (m : PageMetadata D) (rest : OrderedMap (PageMetadata D)) (us : List ℕ)
        → All (λ u. j < u) us
        → All (OnFast rest) us
        → All (OnFast ((j, m) ∷ rest)) us
    unfolding find
    behind-OnFast j m rest [] b h = tt
    behind-OnFast j m rest (u ∷ us) (b, bs) (h, hs) =
        (ground arith, behind-OnFast j m rest us bs hs)

    pub fast_addresses-OnFast :
        (pages : OrderedMap (PageMetadata D))
        → IsKeyed pages
        → IsAscending pages
        → All (OnFast pages) (fast_addresses pages)
    unfolding fast_pages find
    fast_addresses-OnFast [] e a = tt
    fast_addresses-OnFast ((j, m) ∷ rest) (e, es) (b, a) = ground (
      arith,
      behind-OnFast j m rest (fast_addresses rest) (fast_addresses-Above j rest es b)
          (fast_addresses-OnFast rest es a),
    )

    -- The score-based policies gather the same pages.
    pub fast_scored-addresses :
        (slow_node : ℤ) (score : PageMetadata D → D) (pages : OrderedMap (PageMetadata D))
        → (slow_node ==ℤ pos 0) ≡ false
        → map (λ c. c.page_va) (fast_scored slow_node score pages) ≡ fast_addresses pages
    unfolding fast_scored fast_pages
    fast_scored-addresses slow_node score [] t = refl
    fast_scored-addresses slow_node score ((j, m) ∷ rest) t =
        ground (arith, fast_scored-addresses slow_node score rest t)

    -- The first of a rearrangement of the fast pages, as a plan takes them.
    pub victims_known :
        (pages : OrderedMap (PageMetadata D)) (sorted taken others : List ℕ)
        → IsKeyed pages
        → IsAscending pages
        → Perm sorted (fast_addresses pages)
        → taken ++ others ≡ sorted
        → Distinct taken × All (OnFast pages) taken
    victims_known pages sorted taken others e a p s = (
      Distinct-prefix taken others (
          subst Distinct (sym s) (
            Distinct-perm (fast_addresses pages) sorted (Perm.symm p)
              (fast_addresses-Distinct pages e a))),
      All-prefix (OnFast pages) taken others (
          subst (All (OnFast pages)) (sym s) (
            AllValid-perm (λ va. is_on_fast (find va pages)) (fast_addresses pages) sorted
              (Perm.symm p) (fast_addresses-OnFast pages e a))),
    )
