-- ===== src/Cusum/Sums.antt =====
-- The two one-sided sums of `CUSUMDetector` never fall below zero.
use os_research_codebase.Prelude.{
  ◌-◌, ◌≡◌, Bool, false, List, [], ◌∷◌, pos, arith, Bool-cases, inl, inr,
}
use os_research_codebase.Float.{Float, FloatOrder, max_of}
use os_research_codebase.Cusum.{Detector, observe, accumulate, update}
use os_research_codebase.Cusum.Reaction.{run}

module _ {D : Type 0} ⦃f : Float D⦄ {is_number : D → Bool} (order : FloatOrder f is_number) where
  abbrev pub SumsNonneg : Detector D → Type 0
  SumsNonneg d =
      (f.lt d.s_high (f.of_int (pos 0)) ≡ false) × (f.lt d.s_low (f.of_int (pos 0)) ≡ false)

  lt_irrefl : (a : D) → f.lt a a ≡ false
  lt_irrefl a = elim (Bool-cases (f.lt a a)) [ inl e ↦ order.lt_asymm a a e | inr e ↦ e ]

  max_of-nonneg : (z x : D) → f.lt (max_of z x) z ≡ false
  max_of-nonneg z x = ground (arith, order.lt_asymm z x, lt_irrefl z)

  accumulate-SumsNonneg : (d : Detector D) (o sigma : D) → SumsNonneg (accumulate d o sigma).0
  unfolding accumulate
  accumulate-SumsNonneg d o sigma = ground (
    arith,
    lt_irrefl (f.of_int (pos 0)),
    max_of-nonneg (f.of_int (pos 0)) high,
    max_of-nonneg (f.of_int (pos 0)) low,
  )
    where
      deviation : D
      deviation = f.sub o d.running_mean

      high : D
      high = f.sub (f.add d.s_high deviation) (f.mul (f.decimal 5 1) sigma)

      low : D
      low = f.sub (f.sub d.s_low deviation) (f.mul (f.decimal 5 1) sigma)

  update-SumsNonneg : (d : Detector D) (o : D) → SumsNonneg d → SumsNonneg (update d o).0
  unfolding update
  update-SumsNonneg d o h = ground (arith, accumulate-SumsNonneg d' o sigma)
    where
      d' : Detector D
      d' = observe d o

      sigma : D
      sigma = f.sqrt (f.div d'.running_m2 (f.of_int (pos (d'.n_observations - 1))))

  -- Whatever is observed, neither of the two sums becomes negative if neither is before, for doubles
  -- that are ordered.
  pub run-SumsNonneg : (d : Detector D) (os : List D) → SumsNonneg d → SumsNonneg (run d os).0
  unfolding run
  run-SumsNonneg d [] h = h
  run-SumsNonneg d (o ∷ os) h = run-SumsNonneg (update d o).0 os (update-SumsNonneg d o h)
