-- ===== src/Daemon/Main/Stops.antt =====
-- When the main loop ends, and how it numbers its rounds.
use os_research_codebase.Prelude.{
  ℕ, ◌+◌, suc, ◌≡◌, refl, Bool, true, false, List, [], ◌∷◌, ◌++◌, none, some, ℤ, pos, length, arith,
  inl, inr, Option-cases, ltb_ℤ, sym, ap, All, ◌⊎◌,
}
use os_research_codebase.Float.{Float}
use os_research_codebase.Config.{Config}
use os_research_codebase.Page.{PageMetadata}
use os_research_codebase.Sorting.{Sorter}
use os_research_codebase.Policy.Scored.{ScoredPage}
use os_research_codebase.Workload.Info.{
  Streams, ReadsBack, update_shared_info, read_workload_info, read_workload_info-update_shared_info,
}
use os_research_codebase.Daemon.Epoch.{
  WorkloadInfo, Surroundings, Loop, Cell, summary_line, sense, epoch_step,
}
use os_research_codebase.Daemon.Main.{Round, met, main_loop}
use os_research_codebase.Daemon.Main.Rounds.{epoch_step-eq_some}

-- The lines begin with `n` and the numbers that follow.
abbrev pub NumberedFrom : {D : Type 0} → ℕ → List (List (Cell D)) → Type 0
NumberedFrom n [] = Unit {0}
NumberedFrom n ([] ∷ lines) = ⊥
NumberedFrom n ((cell ∷ cells) ∷ lines) = (cell ≡ Cell.int (pos n)) × NumberedFrom (suc n) lines

module _ {D S W : Type 0} (io : Streams S W) where
  -- A round that finds the workload gone, or its file as `update_shared_info` writes it for a
  -- negative phase.
  abbrev pub Final : Round D S → Type 0
  Final r =
      (r.env.workload_gone ≡ true)
      ⊎ ((info : WorkloadInfo) × (phase : ℤ) × (r.file
            ≡ some (io.opened (update_shared_info io info phase).1))
          × (ltb_ℤ phase (pos 0) ≡ true))

-- A round that meets the workload alive but not its file.
abbrev pub Unheard : {D S : Type 0} → Round D S → Type 0
Unheard r = (r.env.workload_gone ≡ false) × (r.file ≡ none)

module _ {D : Type 0} ⦃f : Float D⦄ (pages : Sorter (PageMetadata D))
    (scored : Sorter (ScoredPage D)) (cfg : Config) where
  -- A negative phase ends the loop, whether or not the workload is still there.
  finished :
      (env : Surroundings D) (loop : Loop D)
      → ltb_ℤ env.read_info.current_phase (pos 0) ≡ true
      → epoch_step pages scored cfg env loop ≡ none
  unfolding epoch_step
  finished env loop h = ground arith

  gone_finished :
      (env : Surroundings D) (loop : Loop D)
      → env.workload_gone ≡ true
      → epoch_step pages scored cfg env loop ≡ none
  unfolding epoch_step
  gone_finished env loop h = ground arith

  unfinished :
      (env : Surroundings D) (loop : Loop D)
      → env.workload_gone ≡ false
      → ltb_ℤ env.read_info.current_phase (pos 0) ≡ false
      → ¬ epoch_step pages scored cfg env loop ≡ none
  unfolding epoch_step
  unfinished env loop alive h e = ground arith

  epoch_step-info :
      (env : Surroundings D) (loop loop' : Loop D) (line : List (Cell D))
      → epoch_step pages scored cfg env loop ≡ some (loop', line)
      → loop'.info ≡ env.read_info
  unfolding epoch_step
  epoch_step-info env loop loop' line e = ground arith

  -- The line of a round that does not end the loop.
  printed :
      (env : Surroundings D) (loop loop' : Loop D) (line : List (Cell D))
      → epoch_step pages scored cfg env loop ≡ some (loop', line)
      → line
        ≡ summary_line loop.epoch env.read_info env.epoch_ms
            (sense pages scored cfg env loop.mgr)
            loop'.mgr
  unfolding epoch_step
  printed env loop loop' line e = ground arith

  line_numbered :
      (env : Surroundings D) (loop loop' : Loop D) (line : List (Cell D))
      (lines : List (List (Cell D)))
      → epoch_step pages scored cfg env loop ≡ some (loop', line)
      → NumberedFrom loop'.epoch lines
      → NumberedFrom loop.epoch (line ∷ lines)
  unfolding summary_line
  line_numbered env loop loop' line lines e h =
      rw (printed env loop loop' line e)
        (refl, rw (sym (epoch_step-eq_some pages scored cfg env loop loop' line e).1) h)

  module _ {S W : Type 0} (io : Streams S W) (interval : D) (tracing : Bool) where
    -- Every round that does not end the loop prints one line of the summary, and the lines carry the
    -- numbers of the rounds without a gap.
    pub main_loop-NumberedFrom :
        (rounds : List (Round D S)) (loop : Loop D)
        → NumberedFrom loop.epoch
            (main_loop io pages scored cfg interval tracing rounds loop).1.summary
          × ((main_loop io pages scored cfg interval tracing rounds loop).0.epoch
              ≡ loop.epoch
                + length (main_loop io pages scored cfg interval tracing rounds loop).1.summary)
    unfolding main_loop
    main_loop-NumberedFrom [] loop = (tt, omega arith)
    main_loop-NumberedFrom (r ∷ rounds) loop =
        elim (Option-cases (epoch_step pages scored cfg (met io pages scored r loop.info) loop)) [
          | inl e ↦ rw (e, main_loop) (tt, omega arith)
          | inr ((loop', line), e) ↦
              let (numbered, counted) = main_loop-NumberedFrom rounds loop' in
              rw (e, main_loop)
                (
                  line_numbered (met io pages scored r loop.info) loop loop' line _ e numbered,
                  omega (
                    arith,
                    counted,
                    (epoch_step-eq_some pages scored cfg (met io pages scored r loop.info) loop
                        loop' line e).1,
                  ),
                )
        ]

    Final-finished :
        ReadsBack io
        → (r : Round D S) (loop : Loop D) → Final io r
        → epoch_step pages scored cfg (met io pages scored r loop.info) loop ≡ none
    unfolding update_shared_info
    Final-finished back r loop (inl gone) =
        gone_finished (met io pages scored r loop.info) loop gone
    Final-finished back r loop (inr (info, phase, file, negative)) =
        finished (met io pages scored r loop.info) loop told
      where
        told : ltb_ℤ (met io pages scored r loop.info).read_info.current_phase (pos 0) ≡ true
        told =
            rw (file, read_workload_info-update_shared_info io back info loop.info phase) negative

    -- If what is written on a line is read back, the loop ends, at the latest, in a round that
    -- finds the workload gone or its file as written for a negative phase: the rounds behind
    -- have no effect, whatever happened in those before.
    pub main_loop_stops :
        ReadsBack io
        → (before : List (Round D S)) (r : Round D S) (after : List (Round D S)) (loop : Loop D)
        → Final io r
        → main_loop io pages scored cfg interval tracing (before ++ r ∷ after) loop
          ≡ main_loop io pages scored cfg interval tracing before loop
    unfolding main_loop
    main_loop_stops back [] r after loop last = rw (Final-finished back r loop last, main_loop)
    main_loop_stops back (b ∷ before) r after loop last =
        elim (Option-cases (epoch_step pages scored cfg (met io pages scored b loop.info) loop)) [
          | inl e ↦ rw (e, main_loop)
          | inr ((loop', line), e) ↦
              rw (e, main_loop, main_loop_stops back before r after loop' last)
        ]

    -- Over rounds that find the workload alive but not its file, the loop, if the phase last
    -- read is not negative, goes on: it prints a line in every round.
    pub main_loop_goes_on :
        (rounds : List (Round D S)) (loop : Loop D)
        → All Unheard rounds
        → ltb_ℤ loop.info.current_phase (pos 0) ≡ false
        → length (main_loop io pages scored cfg interval tracing rounds loop).1.summary
          ≡ length rounds
    unfolding main_loop read_workload_info
    main_loop_goes_on [] loop u h = refl
    main_loop_goes_on (r ∷ rounds) loop ((alive, missing), us) h =
        elim (Option-cases (epoch_step pages scored cfg (met io pages scored r loop.info) loop)) [
          | inl e ↦
              absurd (unfinished (met io pages scored r loop.info) loop alive (rw (missing) h) e)
          | inr ((loop', line), e) ↦
              rw (e, main_loop)
                (ap suc (
                  main_loop_goes_on rounds loop' us (
                    rw
                      (epoch_step-info (met io pages scored r loop.info) loop loop' line e, missing)
                      h)))
        ]
