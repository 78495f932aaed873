-- ===== src/Tests/Detector.antt =====
-- The detector on a run of equal observations and a jump.
use os_research_codebase.Prelude.{
  ℕ, ◌≡◌, refl, Bool, true, false, List, [], ◌∷◌, ℤ, pos, arith, All, replicate,
}
use os_research_codebase.Float.Fixed.{fixed, fixed-FloatOrder}
use os_research_codebase.Cusum.{Detector, update}
use os_research_codebase.Cusum.Reaction.{
  run, epochs_since, Reacting, Settled, run-epochs_since, window-Reacting, window-Settled,
}
use os_research_codebase.Cusum.Sums.{SumsNonneg, run-SumsNonneg}

-- After ten observations with a small spread, far below the next one.
abbrev calm : Detector ℤ
calm = record {
  running_mean = pos 4000000;
  running_m2 = pos 40000000;
  n_observations = 10;
  s_high = pos 10000000;
  s_low = pos 0;
  epochs_since_detection = 1009;
  react_demote = pos 100000;
  stable_promote = pos 200000;
  stable_demote = pos 400000;
  stable_abs_threshold = pos 921000;
}

abbrev jump : ℤ
jump = pos 20000000

jump_detected : (update calm jump).1 ≡ true
unfolding update fixed
jump_detected = refl

-- The calls after the jump, all near the mean.
abbrev steady : ℕ → List ℤ
steady n = replicate n (pos 5000000)

quiet_five : All (λ v. v ≡ false) (run (update calm jump).0 (steady 5)).1
unfolding run update fixed
quiet_five = (refl, (refl, (refl, (refl, (refl, tt)))))

quiet_long : All (λ v. v ≡ false) (run (update calm jump).0 (steady 21)).1
unfolding run update fixed
quiet_long = all_false (run (update calm jump).0 (steady 21)).1 refl
  where
    none_true : List Bool → Bool
    none_true [] = true
    none_true (true ∷ vs) = false
    none_true (false ∷ vs) = none_true vs

    all_false : (vs : List Bool) → none_true vs ≡ true → All (λ v. v ≡ false) vs
    all_false [] h = tt
    all_false (true ∷ vs) h = cc
    all_false (false ∷ vs) h = (refl, all_false vs h)

window-Reacting_example : Reacting (run (update calm jump).0 (steady 5)).0
window-Reacting_example =
    window-Reacting calm jump (steady 5) jump_detected quiet_five (omega arith)

window-Settled_example : Settled (run (update calm jump).0 (steady 21)).0
window-Settled_example = window-Settled calm jump (steady 21) jump_detected quiet_long (omega arith)

run-epochs_since_example :
    (run calm (jump ∷ steady 2)).0.epochs_since_detection
    ≡ epochs_since 1009 (run calm (jump ∷ steady 2)).1
run-epochs_since_example = run-epochs_since calm (jump ∷ steady 2)

calm-SumsNonneg : SumsNonneg fixed-FloatOrder calm
unfolding fixed
calm-SumsNonneg = (refl, refl)

run-SumsNonneg_example : SumsNonneg fixed-FloatOrder (run calm (jump ∷ steady 2)).0
run-SumsNonneg_example = run-SumsNonneg fixed-FloatOrder calm (jump ∷ steady 2) calm-SumsNonneg
