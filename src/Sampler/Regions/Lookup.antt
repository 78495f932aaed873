-- ===== src/Sampler/Regions/Lookup.antt =====
-- The search for the region of an address finds it exactly if there is one.
use os_research_codebase.Prelude.{
  ℕ, ◌≤◌, ◌<◌, ◌≡◌, refl, Bool, false, ◌&&◌, ◌||◌, ltb, leb, List, [], ◌∷◌, Option, none, some, All,
  arith, Bool-cases, inl, inr, ◌∙◌, sym,
}
use os_research_codebase.Sampler.Regions.{VmRegion, last_starting, is_workload_vma}

-- The linear search that `is_workload_vma` replaces.
pub in_some_region : List VmRegion → ℕ → Bool
in_some_region [] va = false
in_some_region (r ∷ rs) va = (leb r.va_start va && ltb va r.va_end) || in_some_region rs va

-- Each region ends where the next one starts, or before.
abbrev pub IsDisjoint : List VmRegion → Type 0
IsDisjoint [] = Unit {0}
IsDisjoint (r ∷ rs) = (r.va_start ≤ r.va_end) × All (λ s. r.va_end ≤ s.va_start) rs × IsDisjoint rs

abbrev region_holds : ℕ → Option VmRegion → Bool
region_holds va none = false
region_holds va (some r) = ltb va r.va_end

later_regions :
    (va : ℕ) (e : ℕ) (rs : List VmRegion)
    → va < e
    → All (λ s. e ≤ s.va_start) rs
    → in_some_region rs va ≡ false
unfolding in_some_region
later_regions va e [] h a = refl
later_regions va e (r ∷ rs) h (a, as') = ground (arith, later_regions va e rs h as')

starts_from :
    (a e : ℕ) (rs : List VmRegion)
    → a ≤ e
    → All (λ s. e ≤ s.va_start) rs
    → All (λ s. a ≤ s.va_start) rs
starts_from a e [] h x = tt
starts_from a e (r ∷ rs) h (x, xs) = (omega arith, starts_from a e rs h xs)

-- An address below the first region is in none.
below_regions :
    (va : ℕ) (r : VmRegion) (rs : List VmRegion)
    → va < r.va_start
    → IsDisjoint (r ∷ rs)
    → in_some_region (r ∷ rs) va ≡ false
below_regions va r rs h (d, ds, _) =
    later_regions va r.va_start (r ∷ rs) h (omega arith, starts_from r.va_start r.va_end rs d ds)

search_from :
    (va : ℕ) (r : VmRegion) (rs : List VmRegion)
    → r.va_start ≤ va
    → IsDisjoint (r ∷ rs)
    → region_holds va (last_starting va (some r) rs) ≡ in_some_region (r ∷ rs) va
unfolding last_starting in_some_region
search_from va r [] h d = ground arith
search_from va r (s ∷ rs) h (d, (e, es), ds) = elim (Bool-cases (ltb va s.va_start)) [
  | inl before ↦
      rw (before, last_starting) (ground (arith, below_regions va s rs (ground arith) ds))
  | inr reached ↦
      rw (reached, last_starting)
        (search_from va s rs (ground arith) ds
          ∙ ground (arith, past (leb r.va_start va) (ltb va r.va_end) (in_some_region (s ∷ rs) va)))
]
  where
    past : (a b c : Bool) → b ≡ false → (a && b) || c ≡ c
    past a b c e = ground arith

region_holds_lem :
    (va : ℕ) (o : Option VmRegion)
    → (elim o as (λ x. Bool) [ none ↦ false | some r ↦ ltb va r.va_end ]) ≡ region_holds va o
region_holds_lem va none = refl
region_holds_lem va (some r) = refl

-- On regions that are sorted and do not overlap, the binary search for a region that holds the
-- address answers as the search through all of them.
pub is_workload_vma-in_some_region :
    (regions : List VmRegion) (va : ℕ)
    → IsDisjoint regions
    → is_workload_vma regions va ≡ in_some_region regions va
unfolding is_workload_vma in_some_region
is_workload_vma-in_some_region regions va d =
    region_holds_lem va (last_starting va none regions) ∙ whole regions d
  where
    whole :
        (rs : List VmRegion)
        → IsDisjoint rs
        → region_holds va (last_starting va none rs) ≡ in_some_region rs va
    whole [] h = refl
    whole (r ∷ rs) h = elim (Bool-cases (ltb va r.va_start)) [
      | inl before ↦ rw (before, last_starting) (sym (below_regions va r rs (ground arith) h))
      | inr reached ↦ rw (reached, last_starting) (search_from va r rs (ground arith) h)
    ]
