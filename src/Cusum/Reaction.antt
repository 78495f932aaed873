-- ===== src/Cusum/Reaction.antt =====
-- The state machine of `CUSUMDetector`: what one call of `update` does on each branch, and which
-- margins the getters give after a sequence of calls.
use os_research_codebase.Prelude.{
  ℕ, suc, ◌+◌, ◌≤◌, ◌<◌, ◌≡◌, refl, Bool, true, false, if◌then◌else◌, List, [], ◌∷◌, pos, arith,
  ◌∙◌, length, All,
}
use os_research_codebase.Float.{Float}
use os_research_codebase.Cusum.{
  Detector, react_promote, react_abs_threshold, new_detector, set_margins, accumulate, update,
  get_promote_margin, get_demote_margin, get_absolute_threshold,
}

-- The epoch counter as the verdicts alone determine it.
pub epochs_since : ℕ → List Bool → ℕ
epochs_since e [] = e
epochs_since e (true ∷ verdicts) = epochs_since 0 verdicts
epochs_since e (false ∷ verdicts) = epochs_since (suc e) verdicts

quiet-epochs_since :
    (e : ℕ) (verdicts : List Bool)
    → All (λ v. v ≡ false) verdicts
    → epochs_since e verdicts ≡ e + length verdicts
unfolding epochs_since
quiet-epochs_since e [] q = omega arith
quiet-epochs_since e (true ∷ vs) (q, qs) = cc
quiet-epochs_since e (false ∷ vs) (q, qs) = omega (arith, quiet-epochs_since (suc e) vs qs)

module _ {D : Type 0} ⦃f : Float D⦄ where
  -- One call of `update` for each observation: the final state and the verdicts, oldest first.
  unfoldable pub run : Detector D → List D → Detector D × List Bool
  run d [] = (d, [])
  run d (o ∷ os) =
      let (d', verdict) = update d o in
      let (last, verdicts) = run d' os in (last, verdict ∷ verdicts)

  accumulate-epochs :
      (d : Detector D) (o sigma : D)
      → (accumulate d o sigma).0.epochs_since_detection
        ≡ (if (accumulate d o sigma).1 then 0 else d.epochs_since_detection)
  unfolding accumulate
  accumulate-epochs d o sigma = ground arith

  update-epochs :
      (d : Detector D) (o : D)
      → (update d o).0.epochs_since_detection
        ≡ (if (update d o).1 then 0 else suc d.epochs_since_detection)
  unfolding update
  update-epochs d o = ground arith

  -- The counter that the getters read is the number of calls since the last detection.
  pub run-epochs_since :
      (d : Detector D) (os : List D)
      → (run d os).0.epochs_since_detection ≡ epochs_since d.epochs_since_detection (run d os).1
  unfolding run epochs_since
  run-epochs_since d [] = refl
  run-epochs_since d (o ∷ os) =
      ground (arith, update-epochs d o, run-epochs_since (update d o).0 os)

  -- A detection needs ten observations; it clears both sums and the epoch counter.
  pub update_detected :
      (d : Detector D) (o : D)
      → (update d o).1 ≡ true
      → (9 ≤ d.n_observations)
        × ((update d o).0.s_high ≡ f.of_int (pos 0))
        × ((update d o).0.s_low ≡ f.of_int (pos 0))
        × ((update d o).0.epochs_since_detection ≡ 0)
  unfolding update
  update_detected d o h = ground arith

  -- Without a detection an epoch passes, and the sums change only after the warm-up.
  pub update_quiet :
      (d : Detector D) (o : D)
      → (update d o).1 ≡ false
      → ((update d o).0.epochs_since_detection ≡ suc d.epochs_since_detection)
        × (d.n_observations < 9
            → ((update d o).0.s_high ≡ d.s_high) × ((update d o).0.s_low ≡ d.s_low))
  unfolding update
  update_quiet d o h = ground arith

  pub update_n_observations :
      (d : Detector D) (o : D) → (update d o).0.n_observations ≡ suc d.n_observations
  unfolding update
  update_n_observations d o = ground arith

  -- What `set_margins` sets, and the other margins, are left alone by `update`.
  abbrev pub SameMargins : Detector D → Detector D → Type 0
  SameMargins d e =
      (d.react_demote ≡ e.react_demote)
      × (d.stable_promote ≡ e.stable_promote)
      × (d.stable_demote ≡ e.stable_demote)
      × (d.stable_abs_threshold ≡ e.stable_abs_threshold)

  update-SameMargins : (d : Detector D) (o : D) → SameMargins (update d o).0 d
  unfolding update
  update-SameMargins d o = ground arith

  pub run-SameMargins : (d : Detector D) (os : List D) → SameMargins (run d os).0 d
  unfolding run
  run-SameMargins d [] = (refl, refl, refl, refl)
  run-SameMargins d (o ∷ os) =
      ground (arith, run-SameMargins (update d o).0 os, update-SameMargins d o)

  length-verdicts : (d : Detector D) (os : List D) → length (run d os).1 ≡ length os
  unfolding run
  length-verdicts d [] = refl
  length-verdicts d (o ∷ os) = omega (arith, length-verdicts (update d o).0 os)

  -- No verdict is positive in the first nine calls on a new detector.
  early_quiet :
      (d : Detector D) (os : List D)
      → d.n_observations + length os ≤ 9
      → All (λ v. v ≡ false) (run d os).1
  unfolding run
  early_quiet d [] h = tt
  early_quiet d (o ∷ os) h = (
    ground (arith, update_detected d o),
    early_quiet (update d o).0 os (omega (arith, update_n_observations d o)),
  )

  pub warm_up_quiet : (os : List D) → length os ≤ 9 → All (λ v. v ≡ false) (run new_detector os).1
  unfolding new_detector
  warm_up_quiet os h = early_quiet new_detector os (omega arith)

  abbrev pub Reacting : Detector D → Type 0
  Reacting d =
      (get_promote_margin d ≡ react_promote)
      × (get_demote_margin d ≡ d.react_demote)
      × (get_absolute_threshold d ≡ react_abs_threshold)

  abbrev pub Settled : Detector D → Type 0
  Settled d =
      (get_promote_margin d ≡ d.stable_promote)
      × (get_demote_margin d ≡ d.stable_demote)
      × (get_absolute_threshold d ≡ d.stable_abs_threshold)

  early-Reacting : (d : Detector D) → d.epochs_since_detection ≤ 5 → Reacting d
  unfolding get_promote_margin get_demote_margin get_absolute_threshold
  early-Reacting d h = ground arith

  late-Settled : (d : Detector D) → 20 < d.epochs_since_detection → Settled d
  unfolding get_promote_margin get_demote_margin get_absolute_threshold
  late-Settled d h = ground arith

  -- The calls `os` follow the detection by `o`, and detect nothing.
  module _ (d : Detector D) (o : D) (os : List D) (h : (update d o).1 ≡ true)
      (q : All (λ v. v ≡ false) (run (update d o).0 os).1) where
    epochs-window : (run (update d o).0 os).0.epochs_since_detection ≡ length os
    epochs-window = omega (
      arith,
      run-epochs_since (update d o).0 os,
      quiet-epochs_since (update d o).0.epochs_since_detection (run (update d o).0 os).1 q,
      length-verdicts (update d o).0 os,
      (update_detected d o h).3,
    )

    -- After a detection and at most five further calls, none of which detects anything, the getters
    -- give the reaction margins.
    pub window-Reacting : length os ≤ 5 → Reacting (run (update d o).0 os).0
    window-Reacting short = early-Reacting (run (update d o).0 os).0 (omega (arith, epochs-window))

    -- After a detection and more than twenty further calls, none of which detects anything, the
    -- getters give the stable margins.
    pub window-Settled : 20 < length os → Settled (run (update d o).0 os).0
    window-Settled long = late-Settled (run (update d o).0 os).0 (omega (arith, epochs-window))

  -- Overrides given to a new detector are the margins in force through the whole warm-up.
  pub set_margins_in_force :
      (abs demote : D) (os : List D)
      → length os ≤ 9
      → (get_absolute_threshold (run (set_margins new_detector abs demote) os).0 ≡ abs)
        × (get_demote_margin (run (set_margins new_detector abs demote) os).0 ≡ demote)
  unfolding set_margins new_detector
  set_margins_in_force abs demote os h = (
    (late-Settled (run d os).0 counted).2 ∙ (run-SameMargins d os).3,
    (late-Settled (run d os).0 counted).1 ∙ (run-SameMargins d os).2,
  )
    where
      d : Detector D
      d = set_margins new_detector abs demote

      counted : 20 < (run d os).0.epochs_since_detection
      counted = omega (
        arith,
        run-epochs_since d os,
        quiet-epochs_since d.epochs_since_detection (run d os).1 (early_quiet d os (omega arith)),
      )
