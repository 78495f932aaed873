-- ===== src/Cusum.antt =====
-- daemon/cusum.h and daemon/cusum.cpp: the adaptive CUSUM change-point detector.

pub mod Reaction
pub mod Sums
use os_research_codebase.Prelude.{
  ℕ, suc, ◌+◌, ◌-◌, Bool, true, false, ◌||◌, ltb, leb, if◌then◌else◌, pos,
}
use os_research_codebase.Float.{Float, max_of}

-- The non-static members.
pub record Detector (D : Type 0) : Type 0 where
  pub running_mean : D
  pub running_m2 : D
  pub n_observations : ℕ
  pub s_high : D
  pub s_low : D
  pub epochs_since_detection : ℕ
  pub react_demote : D
  pub stable_promote : D
  pub stable_demote : D
  pub stable_abs_threshold : D

abbrev pub react_epochs : ℕ
react_epochs = 5

abbrev pub transition_epochs : ℕ
transition_epochs = 20

module _ {D : Type 0} ⦃f : Float D⦄ where
  open f use {of_int, decimal, add, sub, mul, div, sqrt, lt}

  abbrev pub react_promote : D
  react_promote = decimal 5 2

  abbrev pub react_abs_threshold : D
  react_abs_threshold = decimal 587 3

  -- The default member initialisers.
  unfoldable pub new_detector : Detector D
  new_detector = record {
    running_mean = of_int (pos 0);
    running_m2 = of_int (pos 0);
    n_observations = 0;
    s_high = of_int (pos 0);
    s_low = of_int (pos 0);
    epochs_since_detection = 999;
    react_demote = decimal 10 2;
    stable_promote = decimal 20 2;
    stable_demote = decimal 40 2;
    stable_abs_threshold = decimal 921 3;
  }

  unfoldable pub set_margins : Detector D → D → D → Detector D
  set_margins d abs_thresh demote_margin = record d {
    stable_abs_threshold = abs_thresh;
    stable_demote = demote_margin;
  }

  -- The first statements of `update`: Welford's step, and one more epoch since the detection.
  observe : Detector D → D → Detector D
  observe d observation =
      let n = suc d.n_observations in
      let delta = sub observation d.running_mean in
      let mean = add d.running_mean (div delta (of_int (pos n))) in
      let delta2 = sub observation mean in
      record d {
        n_observations = n;
        running_mean = mean;
        running_m2 = add d.running_m2 (mul delta delta2);
        epochs_since_detection = suc d.epochs_since_detection;
      }

  -- The rest of `update`, behind the warm-up and the test on `sigma`.
  accumulate : Detector D → D → D → Detector D × Bool
  accumulate d observation sigma =
      let k = mul (decimal 5 1) sigma in
      let h = mul (decimal 40 1) sigma in
      let zero = of_int (pos 0) in
      let deviation = sub observation d.running_mean in
      let high = max_of zero (sub (add d.s_high deviation) k) in
      let low = max_of zero (sub (sub d.s_low deviation) k) in
      if lt h high || lt h low
      then (record d { s_high = zero; s_low = zero; epochs_since_detection = 0 }, true)
      else (record d { s_high = high; s_low = low }, false)

  -- `CUSUMDetector::update`; true if a change-point is detected.
  unfoldable pub update : Detector D → D → Detector D × Bool
  unfolding observe accumulate
  update d observation =
      let d' = observe d observation in
      let variance = div d'.running_m2 (of_int (pos (d'.n_observations - 1))) in
      let sigma = sqrt variance in
      if ltb d'.n_observations 10
      then (d', false)
      else if lt sigma (decimal 1 10)
      then (d', false)
      else accumulate d' observation sigma

  -- The body that the three getters share.
  scheduled : D → D → ℕ → D
  scheduled reacting stable epochs =
      if leb epochs react_epochs
      then reacting
      else if leb epochs transition_epochs
      then (let t =
            div (of_int (pos (epochs - react_epochs)))
              (of_int (pos (transition_epochs - react_epochs))) in
          add reacting (mul t (sub stable reacting)))
      else stable

  unfoldable pub get_promote_margin : Detector D → D
  unfolding scheduled
  get_promote_margin d = scheduled react_promote d.stable_promote d.epochs_since_detection

  unfoldable pub get_demote_margin : Detector D → D
  unfolding scheduled
  get_demote_margin d = scheduled d.react_demote d.stable_demote d.epochs_since_detection

  unfoldable pub get_absolute_threshold : Detector D → D
  unfolding scheduled
  get_absolute_threshold d =
      scheduled react_abs_threshold d.stable_abs_threshold d.epochs_since_detection
