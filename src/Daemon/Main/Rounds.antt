-- ===== src/Daemon/Main/Rounds.antt =====
-- What a round of the main loop, and the whole loop, keep of the tracked pages.
use os_research_codebase.Prelude.{
  suc, ◌≡◌, Bool, List, [], ◌∷◌, some, pos, length, arith, inl, inr, Option-cases,
}
use os_research_codebase.Float.{Float}
use os_research_codebase.Config.{Config}
use os_research_codebase.Page.{PageMetadata}
use os_research_codebase.Sorting.{Sorter}
use os_research_codebase.TierManager.{TierManager}
use os_research_codebase.TierManager.Accesses.Kept.{detect_accesses-Tidy}
use os_research_codebase.TierManager.Nodes.{update_page_nodes, calculate_misplaced_pages}
use os_research_codebase.TierManager.Nodes.Refresh.{query_reply}
use os_research_codebase.TierManager.Invariant.{Synced}
use os_research_codebase.TierManager.Tidy.{Tidy}
use os_research_codebase.TierManager.Tidy.Methods.{
  update_page_nodes-Tidy, update_page_nodes-recounts,
}
use os_research_codebase.Policy.Scored.{ScoredPage}
use os_research_codebase.Policy.Dispatch.{execute}
use os_research_codebase.Policy.Sorts.{PolicySorts}
use os_research_codebase.Policy.Tracked.{execute-Tidy}
use os_research_codebase.Workload.Info.{Streams}
use os_research_codebase.Daemon.Epoch.{Surroundings, Loop, Cell, sense, epoch_step}
use os_research_codebase.Daemon.Main.{Round, met, main_loop}

module _ {D : Type 0} ⦃f : Float D⦄ (pages : Sorter (PageMetadata D))
    (scored : Sorter (ScoredPage D)) (cfg : Config) where
  sense-Tidy :
      (env : Surroundings D) (mgr : TierManager D)
      → Tidy mgr
      → Tidy (sense pages scored cfg env mgr)
  unfolding sense
  sense-Tidy env mgr y = update_page_nodes-Tidy env.kernel_before _ (
      detect_accesses-Tidy cfg env.now env.samples
        (record mgr { epoch_promotions = 0; epoch_demotions = 0 })
        (record { ascending = y.ascending; keyed = y.keyed; none_counted = y.none_counted }))

  -- The pages as a round's policy leaves them, before the second query.
  abbrev pub placed : Surroundings D → Loop D → TierManager D
  placed env loop =
      (execute pages scored env.draw cfg env.kernel loop.policy
        (sense pages scored cfg env loop.mgr)).1

  -- The comparison of the round's policy is a strict weak order on the pages that it sorts.
  abbrev pub RoundSorts : Surroundings D → Loop D → Type 0
  RoundSorts env loop = PolicySorts cfg loop.policy (sense pages scored cfg env loop.mgr)

  pub placed-Tidy :
      (env : Surroundings D) (loop : Loop D)
      → Tidy loop.mgr
      → RoundSorts env loop
      → Tidy (placed env loop)
  placed-Tidy env loop y sorts =
      execute-Tidy cfg env.kernel (sense pages scored cfg env loop.mgr) (sense-Tidy env loop.mgr y)
        pages scored env.draw loop.policy sorts

  -- What a round that does not end the loop leaves.
  pub epoch_step-eq_some :
      (env : Surroundings D) (loop loop' : Loop D) (line : List (Cell D))
      → epoch_step pages scored cfg env loop ≡ some (loop', line)
      → (loop'.mgr
          ≡ calculate_misplaced_pages (update_page_nodes env.kernel_after (placed env loop)))
        × (loop'.epoch ≡ suc loop.epoch)
  unfolding epoch_step
  epoch_step-eq_some env loop loop' line e = ground arith

  -- The policy of the next round is the one that this round's run leaves.
  pub epoch_step-policy :
      (env : Surroundings D) (loop loop' : Loop D) (line : List (Cell D))
      → epoch_step pages scored cfg env loop ≡ some (loop', line)
      → loop'.policy
        ≡ (execute pages scored env.draw cfg env.kernel loop.policy
            (sense pages scored cfg env loop.mgr)).0
  unfolding epoch_step
  epoch_step-policy env loop loop' line e = ground arith

  misplaced-Tidy : (mgr : TierManager D) → Tidy mgr → Tidy (calculate_misplaced_pages mgr)
  unfolding calculate_misplaced_pages
  misplaced-Tidy mgr y = record {
    ascending = y.ascending;
    keyed = y.keyed;
    none_counted = y.none_counted;
  }

  misplaced-Synced : (mgr : TierManager D) → Synced mgr → Synced (calculate_misplaced_pages mgr)
  unfolding calculate_misplaced_pages
  misplaced-Synced mgr y = record { ascending = y.ascending; keyed = y.keyed; counted = y.counted }

  epoch_step-Tidy :
      (env : Surroundings D) (loop loop' : Loop D) (line : List (Cell D))
      → Tidy loop.mgr
      → RoundSorts env loop
      → epoch_step pages scored cfg env loop ≡ some (loop', line)
      → Tidy loop'.mgr
  epoch_step-Tidy env loop loop' line y sorts e = rw (epoch_step-eq_some env loop loop' line e).0 (
      misplaced-Tidy _
        (update_page_nodes-Tidy env.kernel_after (placed env loop) (placed-Tidy env loop y sorts)))

  -- A round from tidy pages, whatever failed in it before, brings the count of the fast tier up to
  -- date, if its last query succeeds with a status for each page and the policy's comparison, where
  -- it is not LRU's or LFU's, is a strict weak order on the pages that the policy sorts.
  pub epoch_step-Synced :
      (env : Surroundings D) (loop loop' : Loop D) (line : List (Cell D))
      → Tidy loop.mgr
      → RoundSorts env loop
      → epoch_step pages scored cfg env loop ≡ some (loop', line)
      → (query_reply env.kernel_after (placed env loop)).ret ≡ pos 0
      → length (query_reply env.kernel_after (placed env loop)).status
        ≡ length (placed env loop).pages_meta
      → Synced loop'.mgr
  epoch_step-Synced env loop loop' line y sorts e ok full =
      rw (epoch_step-eq_some env loop loop' line e).0 (
        misplaced-Synced _ (
          update_page_nodes-recounts env.kernel_after (placed env loop)
            (placed-Tidy env loop y sorts) ok full))

  module _ {S W : Type 0} (io : Streams S W) (interval : D) (tracing : Bool) where
    -- In every round that does not end the loop the policy's calls of `std::sort` are defined.
    abbrev pub SortsThroughout : List (Round D S) → Loop D → Type 0
    SortsThroughout [] loop = Unit
    SortsThroughout (r ∷ rounds) loop =
        (loop' : Loop D) (line : List (Cell D))
        → epoch_step pages scored cfg (met io pages scored r loop.info) loop ≡ some (loop', line)
        → RoundSorts (met io pages scored r loop.info) loop × SortsThroughout rounds loop'

    -- Through any number of rounds, whatever the samples and the kernel's replies, the tracked
    -- pages stay in order, under their own addresses, and none is counted on the fast tier if
    -- there are none, if all that held before and if in every round that does not end the loop the
    -- policy's comparison, where it is not LRU's or LFU's, is a strict weak order on the pages that
    -- the policy sorts.
    pub main_loop-Tidy :
        (rounds : List (Round D S)) (loop : Loop D)
        → Tidy loop.mgr
        → SortsThroughout rounds loop
        → Tidy (main_loop io pages scored cfg interval tracing rounds loop).0.mgr
    unfolding main_loop
    main_loop-Tidy [] loop y w = y
    main_loop-Tidy (r ∷ rounds) loop y w =
        elim (Option-cases (epoch_step pages scored cfg (met io pages scored r loop.info) loop)) [
          | inl e ↦ rw (e, main_loop) y
          | inr ((loop', line), e) ↦
              let (sorts, later) = w loop' line e in
              rw (e, main_loop)
                (main_loop-Tidy rounds loop'
                  (epoch_step-Tidy (met io pages scored r loop.info) loop loop' line y sorts e)
                  later)
        ]
