-- ===== src/Daemon/Main/Capacity.antt =====
-- The fast tier through any number of rounds of the main loop.
use Prim.Native.Nat.{max}
use os_research_codebase.Prelude.{
  ℕ, ◌+◌, ◌-◌, ◌≤◌, ◌≡◌, refl, ◌∙◌, Bool, false, List, [], ◌∷◌, none, some, ℤ, pos, pos_part, ◌==ℤ◌,
  length, count, arith, inl, inr, Option-cases,
}
use os_research_codebase.Float.{Float}
use os_research_codebase.Config.{Config}
use os_research_codebase.OrderedMap.{OrderedMap}
use os_research_codebase.Page.{PageMetadata}
use os_research_codebase.Sorting.{Sorter}
use os_research_codebase.TierManager.{TierManager, Kernel}
use os_research_codebase.TierManager.Accesses.Epoch.{detect_accesses-Synced}
use os_research_codebase.Policy.Capacity.{FastTierBounded}
use os_research_codebase.TierManager.Accesses.Kept.{detect_accesses-kept}
use os_research_codebase.TierManager.Nodes.{refresh, update_page_nodes, calculate_misplaced_pages}
use os_research_codebase.TierManager.Nodes.Refresh.{query_reply, refreshed}
use os_research_codebase.TierManager.Invariant.{Synced}
use os_research_codebase.TierManager.Tidy.{Synced-Tidy, NoneCounted-at_empty}
use os_research_codebase.TierManager.Migration.Counts.{fast_count}
use os_research_codebase.Policy.Scored.{ScoredPage}
use os_research_codebase.Daemon.Epoch.{Surroundings, Loop, Cell, sense, epoch_step}
use os_research_codebase.Daemon.Growth.{asked, before_query, sense-Synced, execute_growth}
use os_research_codebase.Daemon.Main.{Round, met, main_loop}
use os_research_codebase.Daemon.Main.Rounds.{
  RoundSorts, placed, placed-Tidy, epoch_step-eq_some, epoch_step-Synced,
}
use os_research_codebase.Workload.Info.{Streams}

-- How many pages a query finds on node 0.
abbrev pub found_fast : List ℤ → ℕ
found_fast = count (λ s. s ==ℤ pos 0)

module _ {D : Type 0} ⦃f : Float D⦄ where
  refresh-found_fast :
      (status : List ℤ) (pages : OrderedMap (PageMetadata D))
      → length status ≡ length pages
      → (refresh status pages).1 ≡ found_fast status
  unfolding refresh
  refresh-found_fast [] [] h = refl
  refresh-found_fast [] ((va, m) ∷ pages) h = absurd (omega arith)
  refresh-found_fast (s ∷ status) [] h = absurd (omega arith)
  refresh-found_fast (s ∷ status) ((va, m) ∷ pages) h =
      ground (arith, refresh-found_fast status pages)

  -- The kernel answers a query of all the tracked pages with a status for each, and finds no more of
  -- them on node 0 than are recorded there.
  pub record AsRecorded (kernel : Kernel D) (mgr : TierManager D) : Type 0 where
    pub answered : (query_reply kernel mgr).ret ≡ pos 0
    pub complete : length (query_reply kernel mgr).status ≡ length mgr.pages_meta
    pub no_more : found_fast (query_reply kernel mgr).status ≤ fast_count mgr.pages_meta

  queried :
      (kernel : Kernel D) (mgr : TierManager D)
      → (mgr.pages_meta ≡ [] → mgr.fast_tier_count ≡ 0)
      → AsRecorded kernel mgr
      → (update_page_nodes kernel mgr).fast_tier_count ≤ fast_count mgr.pages_meta
  queried kernel mgr z a = elim (refreshed kernel mgr a.answered) [
    | inl (e, same) ↦ rw same (omega (arith, z e))
    | inr changed ↦ rw changed (
        omega (
          arith,
          refresh-found_fast (query_reply kernel mgr).status mgr.pages_meta a.complete,
          a.no_more,
        ))
  ]

  update_page_nodes-kept :
      (kernel : Kernel D) (mgr : TierManager D)
      → (update_page_nodes kernel mgr).epoch_demotions ≡ mgr.epoch_demotions
  unfolding update_page_nodes
  update_page_nodes-kept kernel mgr = ground arith

module _ {D : Type 0} ⦃f : Float D⦄ (pages : Sorter (PageMetadata D))
    (scored : Sorter (ScoredPage D)) (cfg : Config)
    (apart : (cfg.slow_node ==ℤ pos 0) ≡ false) where
  -- Both queries of a round find the pages as they are recorded, and the policy sorts with a strict
  -- weak order.
  pub record Watched (env : Surroundings D) (loop : Loop D) : Type 0 where
    pub before : AsRecorded env.kernel_before (before_query pages scored cfg apart env loop.mgr)
    pub sorts : RoundSorts pages scored cfg env loop
    pub after : AsRecorded env.kernel_after (placed pages scored cfg env loop)

  -- How many of the demotions that the policy asks for do not succeed.
  abbrev pub failed_demotions : Surroundings D → Loop D → ℕ
  failed_demotions env loop =
      asked pages scored cfg apart env.draw loop.policy (sense pages scored cfg env loop.mgr)
      - (placed pages scored cfg env loop).epoch_demotions

  epoch_step-capacity :
      (env : Surroundings D) (loop loop' : Loop D) (line : List (Cell D))
      → Synced loop.mgr
      → epoch_step pages scored cfg env loop ≡ some (loop', line)
      → Watched env loop
      → Synced loop'.mgr
        × (loop'.mgr.fast_tier_count
            ≤ max (pos_part cfg.fast_tier_capacity) loop.mgr.fast_tier_count
              + failed_demotions env loop)
  unfolding sense calculate_misplaced_pages
  epoch_step-capacity env loop loop' line y e w = (
    epoch_step-Synced pages scored cfg env loop loop' line (Synced-Tidy loop.mgr y) w.sorts e
        w.after.answered w.after.complete,
    rw (epoch_step-eq_some pages scored cfg env loop loop' line e).0 (
        omega (
          arith,
          last,
          grown,
          reset,
          sensed.counted,
          queried env.kernel_before entered
              (NoneCounted-at_empty _ _ (Synced-Tidy entered entered-Synced).none_counted) w.before,
          entered-Synced.counted,
          (detect_accesses-kept cfg env.now env.samples started).0,
        )),
  )
    where
      started : TierManager D
      started = record loop.mgr { epoch_promotions = 0; epoch_demotions = 0 }

      entered : TierManager D
      entered = before_query pages scored cfg apart env loop.mgr

      entered-Synced : Synced entered
      entered-Synced =
          detect_accesses-Synced cfg env.now env.samples started apart
            (record { ascending = y.ascending; keyed = y.keyed; counted = y.counted })

      sensed : Synced (sense pages scored cfg env loop.mgr)
      sensed =
          sense-Synced pages scored cfg apart env loop.mgr y w.before.answered w.before.complete

      reset : (sense pages scored cfg env loop.mgr).epoch_demotions ≡ 0
      reset =
          update_page_nodes-kept env.kernel_before entered
          ∙ (detect_accesses-kept cfg env.now env.samples started).1

      grown :
          FastTierBounded cfg.fast_tier_capacity
            (asked pages scored cfg apart env.draw loop.policy
              (sense pages scored cfg env loop.mgr))
            (sense pages scored cfg env loop.mgr)
            (placed pages scored cfg env loop)
      grown =
          execute_growth pages scored cfg apart env.draw env.kernel loop.policy
            (sense pages scored cfg env loop.mgr) sensed w.sorts

      last :
          (update_page_nodes env.kernel_after (placed pages scored cfg env loop)).fast_tier_count
          ≤ fast_count (placed pages scored cfg env loop).pages_meta
      last =
          queried env.kernel_after (placed pages scored cfg env loop)
            (NoneCounted-at_empty _ _
              (placed-Tidy pages scored cfg env loop (Synced-Tidy loop.mgr y) w.sorts).none_counted)
            w.after

  module _ {S W : Type 0} (io : Streams S W) (interval : D) (tracing : Bool) where
    -- In every round that does not end the loop, both queries find the pages as they are recorded,
    -- and the policy sorts with a strict weak order.
    abbrev pub WatchedThroughout : List (Round D S) → Loop D → Type 0
    WatchedThroughout [] loop = Unit {0}
    WatchedThroughout (r ∷ rounds) loop =
        (loop' : Loop D) (line : List (Cell D))
        → epoch_step pages scored cfg (met io pages scored r loop.info) loop ≡ some (loop', line)
        → Watched (met io pages scored r loop.info) loop × WatchedThroughout rounds loop'

    -- The demotions that failed in all the rounds.
    pub all_failed : List (Round D S) → Loop D → ℕ
    all_failed [] loop = 0
    all_failed (r ∷ rounds) loop =
        elim (epoch_step pages scored cfg (met io pages scored r loop.info) loop) [
          | none ↦ 0
          | some (loop', line) ↦
              failed_demotions (met io pages scored r loop.info) loop + all_failed rounds loop'
        ]

    -- Let the slow node not be node 0, the pages be in order with a right count at first, and
    -- in every round that does not end the loop let both queries succeed with a status for each page
    -- and find no more pages on node 0 than are recorded there, and let the policy's comparison,
    -- where it is not LRU's or LFU's, be a strict weak order on the pages that the policy sorts. Then
    -- through any number of rounds the fast tier holds at most its capacity, or what it held at first if that is more, and
    -- one page for each demotion that was asked for and did not succeed.
    pub main_loop-capacity :
        (rounds : List (Round D S)) (loop : Loop D)
        → Synced loop.mgr
        → WatchedThroughout rounds loop
        → (main_loop io pages scored cfg interval tracing rounds loop).0.mgr.fast_tier_count
          ≤ max (pos_part cfg.fast_tier_capacity) loop.mgr.fast_tier_count + all_failed rounds loop
    unfolding main_loop all_failed
    main_loop-capacity [] loop y w = omega arith
    main_loop-capacity (r ∷ rounds) loop y w =
        elim (Option-cases (epoch_step pages scored cfg (met io pages scored r loop.info) loop)) [
          | inl e ↦ rw (e, main_loop) (omega arith)
          | inr ((loop', line), e) ↦
              let (watched, later) = w loop' line e in
              let (synced, one) =
                epoch_step-capacity (met io pages scored r loop.info) loop loop' line y e watched in
              rw (e, main_loop, all_failed)
                (omega (arith, one, main_loop-capacity rounds loop' synced later))
        ]
