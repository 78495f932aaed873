-- ===== src/TierManager/Migration/Counts.antt =====
-- How a migration changes the number of tracked pages on the fast node.
use os_research_codebase.Prelude.{
  ℕ, ◌+◌, ◌≤◌, ◌≡◌, Bool, true, false, List, [], ◌∷◌, Option, none, some, ℤ, pos, ◌==ℤ◌, arith,
  count, length, All, Bool-cases, inl, inr,
}
use os_research_codebase.Float.{Float}
use os_research_codebase.OrderedMap.{
  OrderedMap, find, insert, IsAscending, insert-IsAscending, find-insert,
}
use os_research_codebase.OrderedMap.Counting.{count-insert}
use os_research_codebase.Page.{PageMetadata}
use os_research_codebase.Sorting.{Distinct, AllValid, differs}
use os_research_codebase.TierManager.{on_fast}
use os_research_codebase.TierManager.Migration.{mark_moved, moved, or_zero}

module _ {D : Type 0} where
  abbrev pub fast_count : OrderedMap (PageMetadata D) → ℕ
  fast_count = count on_fast

  -- The page is tracked, on the fast node.
  abbrev pub is_on_fast : Option (PageMetadata D) → Bool
  is_on_fast none = false
  is_on_fast (some m) = m.current_node ==ℤ pos 0

  abbrev pub OnFast : OrderedMap (PageMetadata D) → ℕ → Type 0
  OnFast pages va = is_on_fast (find va pages) ≡ true

module _ {D : Type 0} ⦃f : Float D⦄ where
  pub mark_moved-IsAscending :
      (target : ℤ) (vas : List ℕ) (status : List ℤ) (pages : OrderedMap (PageMetadata D))
      → IsAscending pages
      → IsAscending (mark_moved target vas status pages).0
  unfolding mark_moved
  mark_moved-IsAscending target [] status pages a = a
  mark_moved-IsAscending target (va ∷ vas) [] pages a = a
  mark_moved-IsAscending target (va ∷ vas) (s ∷ status) pages a = elim (Bool-cases (s ==ℤ target)) [
    | inl e ↦
        rw (e, mark_moved)
          (mark_moved-IsAscending target vas status _ (insert-IsAscending va _ pages a))
    | inr e ↦ rw (e, mark_moved) (mark_moved-IsAscending target vas status pages a)
  ]

  -- A promotion adds at most the moves that succeeded.
  pub promotion-fast_count :
      (vas : List ℕ) (status : List ℤ) (pages : OrderedMap (PageMetadata D))
      → IsAscending pages
      → fast_count (mark_moved (pos 0) vas status pages).0
        ≤ fast_count pages + (mark_moved (pos 0) vas status pages).1
  unfolding mark_moved
  promotion-fast_count [] status pages a = omega arith
  promotion-fast_count (va ∷ vas) [] pages a = omega arith
  promotion-fast_count (va ∷ vas) (s ∷ status) pages a = elim (Bool-cases (s ==ℤ pos 0)) [
    | inl e ↦
        rw (e, mark_moved)
          (omega (
            arith,
            promotion-fast_count vas status _ (insert-IsAscending va (here) pages a),
            count-insert on_fast va (here) pages a,
          ))
    | inr e ↦ rw (e, mark_moved) (promotion-fast_count vas status pages a)
  ]
    where
      here : PageMetadata D
      here = moved (pos 0) (or_zero (find va pages))

  others-OnFast :
      (va : ℕ) (m : PageMetadata D) (vas : List ℕ) (pages : OrderedMap (PageMetadata D))
      → AllValid (differs va) vas
      → All (OnFast pages) vas
      → All (OnFast (insert va m pages)) vas
  others-OnFast va m [] pages d h = tt
  others-OnFast va m (u ∷ us) pages (d, ds) (h, hs) =
      (ground (arith, find-insert u va m pages), others-OnFast va m us pages ds hs)

  -- A demotion of distinct pages of the fast node takes away exactly the moves that succeeded.
  pub demotion-fast_count :
      (target : ℤ) (vas : List ℕ) (status : List ℤ) (pages : OrderedMap (PageMetadata D))
      → (target ==ℤ pos 0) ≡ false
      → IsAscending pages
      → Distinct vas
      → All (OnFast pages) vas
      → fast_count (mark_moved target vas status pages).0 + (mark_moved target vas status pages).1
        ≡ fast_count pages
  unfolding mark_moved moved
  demotion-fast_count target [] status pages t a d h = omega arith
  demotion-fast_count target (va ∷ vas) [] pages t a d h = omega arith
  demotion-fast_count target (va ∷ vas) (s ∷ status) pages t a (d, ds) (h, hs) =
      elim (Bool-cases (s ==ℤ target)) [
        | inl hit ↦
            rw (hit, mark_moved)
              (omega (
                arith,
                demotion-fast_count target vas status _ t (insert-IsAscending va here pages a) ds
                    (others-OnFast va here vas pages d hs),
                taken,
              ))
        | inr miss ↦ rw (miss, mark_moved) (demotion-fast_count target vas status pages t a ds hs)
      ]
    where
      here : PageMetadata D
      here = moved target (or_zero (find va pages))

      taken : fast_count (insert va here pages) + 1 ≡ fast_count pages
      taken = ground (arith, count-insert on_fast va here pages a)

  pub mark_moved-le-length :
      (target : ℤ) (vas : List ℕ) (status : List ℤ) (pages : OrderedMap (PageMetadata D))
      → (mark_moved target vas status pages).1 ≤ length vas
  unfolding mark_moved
  mark_moved-le-length target [] status pages = omega arith
  mark_moved-le-length target (va ∷ vas) [] pages = omega arith
  mark_moved-le-length target (va ∷ vas) (s ∷ status) pages = ground (
    arith,
    mark_moved-le-length target vas status pages,
    mark_moved-le-length target vas status
        (insert va (moved target (or_zero (find va pages))) pages),
  )
