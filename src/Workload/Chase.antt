-- ===== src/Workload/Chase.antt =====
-- The pointer chase of workload/workload.cpp, the fourth phase.
use mathlib.Core.List.{Permᴰ}
use os_research_codebase.Prelude.{
  ℕ, zero, suc, ◌+◌, ◌/◌, ◌%◌, ◌<◌, ◌≡◌, refl, ltb, leb, ◌&&◌, ◌==◌, if◌then◌else◌, List, [], ◌∷◌,
  arith, Bool-cases, inl, inr, length, count, take, ap, ◌∙◌, sym, true, false,
}
use os_research_codebase.Float.{Float}
use os_research_codebase.Config.{total_pages}
use os_research_codebase.Workload.Main.{indices}
use os_research_codebase.Workload.Phases.{
  Phase, Draws, index, access_logic, touched_page, touch_page, run_phase,
}

-- How often `page` is among the entries.
abbrev pub visits : ℕ → List ℕ → ℕ
visits page = count (λ j. j == page)

visits-take :
    (page : ℕ) (xs : List ℕ) (i : ℕ)
    → i < length xs
    → visits page (take (suc i) xs)
      ≡ visits page (take i xs) + (if index xs i == page then 1 else 0)
unfolding index
visits-take page [] i h = omega arith
visits-take page (x ∷ xs) zero h = ground arith
visits-take page (x ∷ xs) (suc i) h = ground (arith, visits-take page xs i)

visits-take_all : (page : ℕ) (xs : List ℕ) → visits page (take (length xs) xs) ≡ visits page xs
visits-take_all page [] = refl
visits-take_all page (x ∷ xs) = ground (arith, visits-take_all page xs)

pub visits-permᴰ : (page : ℕ) (xs ys : List ℕ) → Permᴰ xs ys → visits page xs ≡ visits page ys
visits-permᴰ page xs ys Permᴰ.nil = refl
visits-permᴰ page xs ys (Permᴰ.cons {l₁ = l₁} {l₂ = l₂} e p) =
    ground (arith, e, visits-permᴰ page l₁ l₂ p)
visits-permᴰ page xs ys (Permᴰ.swap e e') = ground (arith, e, e')
visits-permᴰ page xs ys (Permᴰ.trans {l₂ = l₂} p q) =
    visits-permᴰ page xs l₂ p ∙ visits-permᴰ page l₂ ys q

length-permᴰ : (xs ys : List ℕ) → Permᴰ xs ys → length xs ≡ length ys
length-permᴰ xs ys Permᴰ.nil = refl
length-permᴰ xs ys (Permᴰ.cons {l₁ = l₁} {l₂ = l₂} e p) = ap suc (length-permᴰ l₁ l₂ p)
length-permᴰ xs ys (Permᴰ.swap e e') = refl
length-permᴰ xs ys (Permᴰ.trans {l₂ = l₂} p q) = length-permᴰ xs l₂ p ∙ length-permᴰ l₂ ys q

visits-indices :
    (page n i : ℕ) → visits page (indices n i) ≡ (if leb i page && ltb page (i + n) then 1 else 0)
visits-indices page zero i = ground arith
visits-indices page (suc n) i = ground (arith, visits-indices page n (suc i))

length-indices : (n i : ℕ) → length (indices n i) ≡ n
length-indices zero i = refl
length-indices (suc n) i = ap suc (length-indices n (suc i))

module _ {D : Type 0} ⦃f : Float D⦄ (zipf_cdf : List D) (chase : List ℕ) (page : ℕ) where
  -- The touches of the page in the first `n` rounds, if each pass touches it once.
  chased : ℕ → ℕ
  chased n = n / 2048 + visits page (take (n % 2048) chase)

  chased-suc :
      (n : ℕ)
      → length chase ≡ 2048
      → visits page chase ≡ 1
      → chased (suc n) ≡ chased n + (if index chase (n % 2048) == page then 1 else 0)
  unfolding chased
  chased-suc n h k = elim (Bool-cases (ltb (n % 2048) 2047)) [
    | inl e ↦
        rw (quotient e, remainder e, visits-take page chase (n % 2048) (within e)) (omega arith)
    | inr e ↦ rw (wrapped e, restarted e) (ground (arith, last e, whole))
  ]
    where
      within : ltb (n % 2048) 2047 ≡ true → n % 2048 < length chase
      within e = ground arith

      quotient : ltb (n % 2048) 2047 ≡ true → suc n / 2048 ≡ n / 2048
      quotient e = ground arith

      remainder : ltb (n % 2048) 2047 ≡ true → suc n % 2048 ≡ suc (n % 2048)
      remainder e = ground arith

      wrapped : ltb (n % 2048) 2047 ≡ false → suc n / 2048 ≡ suc (n / 2048)
      wrapped e = ground arith

      restarted : ltb (n % 2048) 2047 ≡ false → suc n % 2048 ≡ 0
      restarted e = ground arith

      whole : visits page (take 2048 chase) ≡ 1
      whole = rw (sym h) (visits-take_all page chase ∙ k)

      end : ltb (n % 2048) 2047 ≡ false → n % 2048 ≡ 2047
      end e = ground arith

      last :
          ltb (n % 2048) 2047 ≡ false
          → 1
            ≡ visits page (take (n % 2048) chase)
              + (if index chase (n % 2048) == page then 1 else 0)
      last e = rw (end e) (sym whole ∙ visits-take page chase 2047 (omega (arith, h)))

  chase_touch :
      (g : ℕ → Draws D) (touches : ℕ) (memory : ℕ → ℕ)
      → page < 2048
      → touch_page (touched_page zipf_cdf chase Phase.pointer_chase (g touches) touches) memory page
        ≡ (if index chase (touches % 2048) == page then (memory page + 1) % 256 else memory page)
  unfolding touched_page access_logic
  chase_touch g touches memory h = ground arith

  run_chase :
      (g : ℕ → Draws D) (rounds touches : ℕ) (memory : ℕ → ℕ)
      → page < 2048
      → length chase ≡ 2048
      → visits page chase ≡ 1
      → memory page < 256
      → ((run_phase zipf_cdf chase Phase.pointer_chase g rounds touches memory page
              + chased touches)
            % 256
          ≡ (memory page + chased (touches + rounds)) % 256)
        × (run_phase zipf_cdf chase Phase.pointer_chase g rounds touches memory page < 256)
  unfolding run_phase
  run_chase g zero touches memory h k l b =
      (ap (λ t. (memory page + chased t) % 256) (omega arith), b)
  run_chase g (suc rounds) touches memory h k l b = ground (
    arith,
    run_chase g rounds (suc touches) touched h k l bounded,
    chase_touch g touches memory h,
    chased-suc touches k l,
    shifted,
  )
    where
      touched : ℕ → ℕ
      touched =
          touch_page (touched_page zipf_cdf chase Phase.pointer_chase (g touches) touches) memory

      bounded : touched page < 256
      bounded = ground (arith, chase_touch g touches memory h)

      shifted : chased (suc touches + rounds) ≡ chased (touches + suc rounds)
      shifted = ap chased (omega arith)

  -- In a shuffled order the pointer chase increments each page of the memory once in every 2048
  -- rounds: as bytes, by the number of full passes and one more for the pages reached in the last.
  pub run_phase-pointer_chase :
      (g : ℕ → Draws D) (rounds : ℕ) (memory : ℕ → ℕ)
      → Permᴰ chase (indices total_pages 0)
      → page < total_pages
      → memory page < 256
      → run_phase zipf_cdf chase Phase.pointer_chase g rounds 0 memory page
        ≡ (memory page + rounds / total_pages + visits page (take (rounds % total_pages) chase))
          % 256
  unfolding chased
  run_phase-pointer_chase g rounds memory p h b = ground (
    arith,
    run_chase g rounds 0 memory h (length-permᴰ chase (indices 2048 0) p ∙ length-indices 2048 0)
        once b,
  )
    where
      once : visits page chase ≡ 1
      once =
          visits-permᴰ page chase (indices 2048 0) p
          ∙ visits-indices page 2048 0
          ∙ ground (arith, h)
