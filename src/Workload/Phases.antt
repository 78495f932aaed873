-- ===== src/Workload/Phases.antt =====
-- The access patterns of the six phases of workload/workload.cpp.
use os_research_codebase.Prelude.{
  ℕ, zero, suc, ◌+◌, ◌-◌, ◌/◌, ◌%◌, ◌≤◌, ◌<◌, ◌≡◌, ltb, ◌==◌, if◌then◌else◌, List, [], ◌∷◌, Option,
  none, some, arith, length, Bool-cases, inl, inr,
}
use os_research_codebase.Float.{Float}
use os_research_codebase.Config.{total_pages, hotspot_pages, new_data_pages}

-- The phases in order.
pub data Phase : Type 0 where
  sequential_scan zipf_loop burst pointer_chase random_uniform new_data : Phase

-- What the generator gives in the round of a touch: `below n` is a value of
-- `uniform_int_distribution(0, n)`, `unit` one of `uniform_real_distribution(0.0, 1.0)`.
pub record Draws (D : Type 0) : Type 0 where
  pub below : ℕ → ℕ
  pub unit : D

-- `chase_indices[i]`, and 0 out of range.
unfoldable pub index : List ℕ → ℕ → ℕ
index [] i = 0
index (x ∷ xs) zero = x
index (x ∷ xs) (suc i) = index xs i

-- The first page of a phase and the one behind its last.
abbrev pub region : Phase → ℕ × ℕ
region Phase.zipf_loop = (0, hotspot_pages + 1)
region Phase.new_data = (total_pages - new_data_pages, total_pages)
region phase = (0, total_pages)

abbrev pub Within : ℕ × ℕ → Option ℕ → Type 0
Within (first, last) none = Unit {0}
Within (first, last) (some page) = (first ≤ page) × (page < last)

touched-Within :
    (first last i : ℕ)
    → first ≤ i
    → (i < total_pages → i < last)
    → Within (first, last) (if ltb i total_pages then some i else none)
touched-Within first last i a b = elim (Bool-cases (ltb i total_pages)) [
  | inl e ↦ rw (e) (a, b (ground (arith, e)))
  | inr e ↦ rw (e) tt
]

-- The body of the loop of `run_phase`, on the first byte of each page.
abbrev pub touch_page : Option ℕ → (ℕ → ℕ) → ℕ → ℕ
touch_page none memory page = memory page
touch_page (some i) memory page = if page == i then (memory page + 1) % 256 else memory page

-- How often `page` is among `n` numbers from `from` on, by their rests.
scans : ℕ → ℕ → ℕ
scans page n = (n + 2047 - page) / 2048

module _ {D : Type 0} ⦃f : Float D⦄ where
  -- `lower_bound` and the distance from the beginning, on ascending values.
  unfoldable pub lower_bound : List D → D → ℕ
  lower_bound [] r = 0
  lower_bound (x ∷ xs) r = let rest = lower_bound xs r in if f.lt x r then suc rest else 0

  module _ (zipf_cdf : List D) (chase_indices : List ℕ) where
    -- `access_logic` of a phase: the index of the page to touch.
    unfoldable pub access_logic : Phase → Draws D → ℕ → ℕ
    access_logic Phase.sequential_scan g touches = touches % total_pages
    access_logic Phase.zipf_loop g touches = lower_bound zipf_cdf g.unit
    access_logic Phase.burst g touches =
        if ltb (touches % 10) 8 then g.below 7 else g.below (total_pages - 1)
    access_logic Phase.pointer_chase g touches = index chase_indices (touches % total_pages)
    access_logic Phase.random_uniform g touches = g.below (total_pages - 1)
    access_logic Phase.new_data g touches =
        total_pages - new_data_pages + lower_bound zipf_cdf g.unit

    -- The page that a round of `run_phase` touches, if the index is one of a page.
    unfoldable pub touched_page : Phase → Draws D → ℕ → Option ℕ
    unfolding access_logic
    touched_page phase g touches =
        let page_idx = access_logic phase g touches in
        if ltb page_idx total_pages then some page_idx else none

  lower_bound-le-length : (xs : List D) (r : D) → lower_bound xs r ≤ length xs
  unfolding lower_bound
  lower_bound-le-length [] r = omega arith
  lower_bound-le-length (x ∷ xs) r = ground (arith, lower_bound-le-length xs r)

  module _ (zipf_cdf : List D) (chase_indices : List ℕ) where
    -- Whatever is drawn, each phase touches only the pages of its region: the Zipf loop the hotspot
    -- and, as the sum of its weights is rounded, maybe the page behind it, the last phase the new
    -- data, and the others the pages allocated.
    pub touched_page-Within :
        (phase : Phase) (g : Draws D) (touches : ℕ)
        → length zipf_cdf ≡ hotspot_pages
        → Within (region phase) (touched_page zipf_cdf chase_indices phase g touches)
    unfolding touched_page access_logic
    touched_page-Within Phase.sequential_scan g touches h =
        touched-Within 0 2048 _ (omega arith) (λ i. i)
    touched_page-Within Phase.zipf_loop g touches h =
        touched-Within 0 385 _ (omega arith)
          (λ i. omega (arith, lower_bound-le-length zipf_cdf g.unit))
    touched_page-Within Phase.burst g touches h = touched-Within 0 2048 _ (omega arith) (λ i. i)
    touched_page-Within Phase.pointer_chase g touches h =
        touched-Within 0 2048 _ (omega arith) (λ i. i)
    touched_page-Within Phase.random_uniform g touches h =
        touched-Within 0 2048 _ (omega arith) (λ i. i)
    touched_page-Within Phase.new_data g touches h =
        touched-Within 1664 2048 _ (omega arith) (λ i. i)

    -- The loop of `run_phase`: `rounds` is how often the clock lets it run.
    unfoldable pub run_phase : Phase → (ℕ → Draws D) → ℕ → ℕ → (ℕ → ℕ) → ℕ → ℕ
    unfolding touched_page
    run_phase phase g zero touches memory = memory
    run_phase phase g (suc rounds) touches memory =
        run_phase phase g rounds (suc touches)
          (touch_page (touched_page zipf_cdf chase_indices phase (g touches) touches) memory)

    sequential_touch :
        (g : ℕ → Draws D) (touches page : ℕ) (memory : ℕ → ℕ)
        → touch_page
            (touched_page zipf_cdf chase_indices Phase.sequential_scan (g touches) touches)
            memory
            page
          ≡ (if page == touches % 2048 then (memory page + 1) % 256 else memory page)
    unfolding touched_page access_logic
    sequential_touch g touches page memory = ground arith

    run_sequential :
        (g : ℕ → Draws D) (rounds touches page : ℕ) (memory : ℕ → ℕ)
        → page < 2048
        → memory page < 256
        → run_phase Phase.sequential_scan g rounds touches memory page
          ≡ (memory page + (scans page (touches + rounds) - scans page touches)) % 256
    unfolding run_phase scans
    run_sequential g zero touches page memory h k = omega arith
    run_sequential g (suc rounds) touches page memory h k = ground (
      arith,
      sequential_touch g touches page memory,
      run_sequential g rounds (suc touches) page
          (touch_page
            (touched_page zipf_cdf chase_indices Phase.sequential_scan (g touches) touches) memory)
          h,
    )

    -- The sequential scan increments each page of the memory once in every 2048 rounds, in turn: as
    -- bytes, by the number of full passes and one more for the pages reached in the last.
    pub run_phase-sequential_scan :
        (g : ℕ → Draws D) (rounds page : ℕ) (memory : ℕ → ℕ)
        → page < total_pages
        → memory page < 256
        → run_phase Phase.sequential_scan g rounds 0 memory page
          ≡ (memory page
              + rounds / total_pages
              + (if ltb page (rounds % total_pages) then 1 else 0))
            % 256
    unfolding scans
    run_phase-sequential_scan g rounds page memory h k =
        ground (arith, run_sequential g rounds 0 page memory h k)
