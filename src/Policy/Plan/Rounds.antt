-- ===== src/Policy/Plan/Rounds.antt =====
-- One round of the promote/demote loop as a relation, and the rule for invariants of the loop.
use os_research_codebase.Prelude.{
  ℕ, ◌≡◌, refl, inl, inr, Bool, true, false, List, [], ◌∷◌, ◌++◌, some, ℤ, pos, ltb_ℤ, ◌-ℤ◌, arith,
  length, Bool-cases, for_each_inv,
}
use os_research_codebase.Policy.Plan.{Plan, swap_with, plan_step, make_plan}

module _ {A : Type 0} (va : A → ℕ) (skip : ℤ → A → Bool) (beats : A → A → Bool) where
  abbrev pub filled : Plan A → A → Plan A
  filled plan c = record plan {
    to_promote = plan.to_promote ++ va c ∷ [];
    free_fast_slots = plan.free_fast_slots -ℤ pos 1;
  }

  abbrev pub swapped : Plan A → A → A → List A → Plan A
  swapped plan c v vs = record plan {
    to_demote = plan.to_demote ++ va v ∷ [];
    to_promote = plan.to_promote ++ va c ∷ [];
    victims = vs;
  }

  -- A round that does not end the loop skips the candidate, fills a free slot or makes a swap.
  pub data Round (plan : Plan A) (c : A) (plan' : Plan A) : Type 0 where
    skips : plan' ≡ plan → skip plan.free_fast_slots c ≡ true → Round plan c plan'
    fills :
        plan' ≡ filled plan c
        → skip plan.free_fast_slots c ≡ false
        → ltb_ℤ (pos 0) plan.free_fast_slots ≡ true
        → Round plan c plan'
    swaps :
        (v : A) (vs : List A)
        → plan' ≡ swapped plan c v vs
        → plan.victims ≡ v ∷ vs
        → beats c v ≡ true
        → skip plan.free_fast_slots c ≡ false
        → ltb_ℤ (pos 0) plan.free_fast_slots ≡ false
        → Round plan c plan'

  swap_with-eq_some :
      (plan : Plan A) (c : A) (plan' : Plan A) (victims : List A)
      → swap_with va skip beats (pos 0) plan c victims ≡ some plan'
      → (v : A) × (vs : List A) × (victims ≡ v ∷ vs)
        × (beats c v ≡ true)
        × (plan' ≡ swapped plan c v vs)
  unfolding swap_with
  swap_with-eq_some plan c plan' [] e = absurd (cc)
  swap_with-eq_some plan c plan' (v ∷ vs) e = elim (Bool-cases (beats c v)) [
    | inl b ↦ (v, vs, refl, b, ground arith)
    | inr b ↦ absurd (ground arith)
  ]

  module _ (cap : ℤ) where
    pub plan_step-Round :
        (plan : Plan A) (c : A) (plan' : Plan A)
        → plan_step va skip beats cap plan c ≡ some plan'
        → (ltb_ℤ (pos (length plan.to_promote)) cap ≡ true) × Round plan c plan'
    unfolding plan_step
    plan_step-Round plan c plan' e = elim (Bool-cases (ltb_ℤ (pos (length plan.to_promote)) cap)) [
      | inr full ↦ absurd (ground arith)
      | inl room ↦ (
        room,
        elim (Bool-cases (skip plan.free_fast_slots c)) [
          | inl s ↦ Round.skips (ground arith) s
          | inr s ↦ elim (Bool-cases (ltb_ℤ (pos 0) plan.free_fast_slots)) [
            | inl f ↦ Round.fills (ground arith) s f
            | inr f ↦
                let (v, vs, ev, b, ep) =
                  swap_with-eq_some plan c plan' plan.victims (ground arith) in
                Round.swaps v vs ep ev b s f
          ]
        ],
      )
    ]

    -- What holds before the loop and is kept by every round holds after it.
    pub make_plan_inv {ℓ} :
        (P : Plan A → Type ℓ)
        → ((plan : Plan A) (c : A) (plan' : Plan A)
            → P plan
            → ltb_ℤ (pos (length plan.to_promote)) cap ≡ true
            → Round plan c plan'
            → P plan')
        → (candidates : List A) (plan : Plan A) → P plan
        → P (make_plan va skip beats cap candidates plan)
    unfolding make_plan
    make_plan_inv P keep candidates plan p =
        for_each_inv P (plan_step va skip beats cap)
          (λ s c s' q e. keep s c s' q (plan_step-Round s c s' e).0 (plan_step-Round s c s' e).1)
          candidates plan p
