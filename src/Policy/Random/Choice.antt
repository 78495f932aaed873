-- ===== src/Policy/Random/Choice.antt =====
-- The random policy chooses without repetition, and no more pages than fit.
use mathlib.Core.List.{Perm}
use mathlib.Core.List.Perm
use os_research_codebase.Prelude.{
  ℕ, zero, suc, ◌≤◌, List, [], ◌∷◌, ◌++◌, map, ℤ, pos, pos_part, ltb_ℤ, ◌-ℤ◌, ◌+ℤ◌,
  pos_part-sub_pos, length, arith, Bool-cases, inl, inr,
}
use os_research_codebase.Config.{Config}
use os_research_codebase.Float.{Float}
use os_research_codebase.Page.{PageMetadata}
use os_research_codebase.TierManager.{TierManager}
use os_research_codebase.Policy.Random.{
  back, pop_back, swap_remove, pages_on, choose_demotions, choose_promotions, random_demotions,
  random_promotions,
}

module _ {A : Type 0} where
  back-perm : (x : A) (xs : List A) → Perm (x ∷ xs) (back x xs ∷ pop_back x xs)
  unfolding back pop_back
  back-perm x [] = Perm.rfl
  back-perm x (y ∷ ys) =
      Perm.trans (Perm.cons x (back-perm y ys)) (Perm.swap (back y ys) x (pop_back y ys))

  -- The element taken out and what is left are the list.
  swap_remove-perm :
      (i : ℕ) (x : A) (xs : List A)
      → Perm (x ∷ xs) ((swap_remove i x xs).0 ∷ (swap_remove i x xs).1)
  unfolding swap_remove
  swap_remove-perm zero x [] = Perm.rfl
  swap_remove-perm zero x (y ∷ ys) = Perm.cons x (back-perm y ys)
  swap_remove-perm (suc i) x [] = Perm.rfl
  swap_remove-perm (suc i) x (y ∷ ys) =
      Perm.trans (Perm.cons x (swap_remove-perm i y ys))
        (Perm.swap (swap_remove i y ys).0 x (swap_remove i y ys).1)

module _ {D : Type 0} (draw : ℕ → ℕ → ℕ) where
  abbrev addresses : List (PageMetadata D) → List ℕ
  addresses = map (λ m. m.page_va)

  -- Whatever is drawn, the pages to demote are candidates, none chosen twice: with those left over
  -- they make up the candidates.
  pub choose_demotions-perm :
      (i rounds : ℕ) (cands : List (PageMetadata D))
      → (left : List (PageMetadata D)) × Perm
          (map (λ m. m.page_va) cands)
          (choose_demotions draw i rounds cands ++ map (λ m. m.page_va) left)
  unfolding choose_demotions
  choose_demotions-perm i zero cands = (cands, Perm.rfl)
  choose_demotions-perm i (suc rounds) [] = ([], Perm.rfl)
  choose_demotions-perm i (suc rounds) (m ∷ ms) =
      let taken = swap_remove (draw i (length ms)) m ms in
      let (left, p) = choose_demotions-perm (suc i) rounds taken.1 in
      (
        left,
        Perm.trans (Perm.map (λ m. m.page_va) (swap_remove-perm (draw i (length ms)) m ms))
            (Perm.cons taken.0.page_va p),
      )

  -- The same of the pages to promote.
  pub choose_promotions-perm :
      (i rounds : ℕ) (free : ℤ) (cands : List (PageMetadata D))
      → (left : List (PageMetadata D)) × Perm
          (map (λ m. m.page_va) cands)
          (choose_promotions draw i rounds free cands ++ map (λ m. m.page_va) left)
  unfolding choose_promotions
  choose_promotions-perm i zero free cands = (cands, Perm.rfl)
  choose_promotions-perm i (suc rounds) free [] = ([], Perm.rfl)
  choose_promotions-perm i (suc rounds) free (m ∷ ms) =
      let taken = swap_remove (draw i (length ms)) m ms in
      let (left, p) = choose_promotions-perm (suc i) rounds (free -ℤ pos 1) taken.1 in
      elim (Bool-cases (ltb_ℤ (pos 0) free)) [
        | inl e ↦ (
          left,
          rw (e, choose_promotions)
              (Perm.trans (Perm.map (λ m. m.page_va) (swap_remove-perm (draw i (length ms)) m ms))
                (Perm.cons taken.0.page_va p)),
        )
        | inr e ↦ (m ∷ ms, rw (e, choose_promotions) Perm.rfl)
      ]

  choose_promotions-le :
      (i rounds : ℕ) (free : ℤ) (cands : List (PageMetadata D))
      → (length (choose_promotions draw i rounds free cands) ≤ rounds)
        × (length (choose_promotions draw i rounds free cands) ≤ pos_part free)
  unfolding choose_promotions
  choose_promotions-le i zero free cands = omega arith
  choose_promotions-le i (suc rounds) free [] = omega arith
  choose_promotions-le i (suc rounds) free (m ∷ ms) =
      let taken = swap_remove (draw i (length ms)) m ms in
      elim (Bool-cases (ltb_ℤ (pos 0) free)) [
        | inl e ↦
            rw (e, choose_promotions)
              (ground (
                arith,
                choose_promotions-le (suc i) rounds (free -ℤ pos 1) taken.1,
                pos_part-sub_pos free 1,
              ))
        | inr e ↦ rw (e, choose_promotions) (omega arith)
      ]

  choose_demotions-le :
      (i rounds : ℕ) (cands : List (PageMetadata D))
      → length (choose_demotions draw i rounds cands) ≤ rounds
  unfolding choose_demotions
  choose_demotions-le i zero cands = omega arith
  choose_demotions-le i (suc rounds) [] = omega arith
  choose_demotions-le i (suc rounds) (m ∷ ms) =
      omega (arith, choose_demotions-le (suc i) rounds (swap_remove (draw i (length ms)) m ms).1)

  module _ ⦃f : Float D⦄ (cfg : Config) (mgr : TierManager D) where
    -- Whatever is drawn, the random policy keeps to both caps, and promotes at most as many pages as are free once its
    -- demotions are made.
    pub random_limits :
        (length (random_demotions draw cfg mgr) ≤ pos_part cfg.max_demotions)
        × (length (random_promotions draw cfg mgr) ≤ pos_part cfg.max_promotions)
        × (length (random_promotions draw cfg mgr)
            ≤ pos_part (
                cfg.fast_tier_capacity
                -ℤ pos mgr.fast_tier_count
                +ℤ pos (length (random_demotions draw cfg mgr))))
    unfolding random_promotions random_demotions
    random_limits = ground (
      arith,
      choose_demotions-le 0 (pos_part cfg.max_demotions) (pages_on (pos 0) mgr.pages_meta),
      choose_promotions-le (length (random_demotions draw cfg mgr)) (pos_part cfg.max_promotions)
          (cfg.fast_tier_capacity
            -ℤ pos mgr.fast_tier_count
            +ℤ pos (length (random_demotions draw cfg mgr)))
          (pages_on cfg.slow_node mgr.pages_meta),
    )
