-- ===== src/Policy/Plan/Stops.antt =====
-- Why the loop stops, where no candidate is skipped: `promote_and_demote`.
use mathlib.Core.List.{append-nil, append_assoc}
use os_research_codebase.Prelude.{
  ℕ, ◌≡◌, refl, sym, ◌∙◌, ap, inl, inr, ◌⊎◌, Bool, false, List, [], ◌∷◌, ◌++◌, map, none, ℤ, pos,
  ltb_ℤ, Option-cases, length, for_each, arith, Bool-cases,
}
use os_research_codebase.Policy.Plan.{Plan, swap_with, plan_step, make_plan}
use os_research_codebase.Policy.Plan.Rounds.{Round, plan_step-Round}

module _ {A : Type 0} (va : A → ℕ) (beats : A → A → Bool) (cap : ℤ) where
  never : ℤ → A → Bool
  never free c = false

  -- The next candidate finds no free slot and beats no victim.
  abbrev pub Refused : List A → List A → Type 0
  Refused [] victims = Unit
  Refused (c ∷ rest) [] = Unit
  Refused (c ∷ rest) (v ∷ vs) = beats c v ≡ false

  -- The candidates are promoted up to a point, where the batch is full or the next is refused.
  pub record Stops (candidates : List A) (plan plan' : Plan A) : Type 0 where
    pub done : List A
    pub rest : List A
    pub split : candidates ≡ done ++ rest
    pub promoted : plan'.to_promote ≡ plan.to_promote ++ map va done
    pub reason :
        (rest ≡ [])
        ⊎ (ltb_ℤ (pos (length plan'.to_promote)) cap ≡ false)
        ⊎ (ltb_ℤ (pos 0) plan'.free_fast_slots ≡ false) × Refused rest plan'.victims

  swap_with-none :
      (plan : Plan A) (c : A) (cs victims : List A)
      → swap_with va never beats cap plan c victims ≡ none
      → Refused (c ∷ cs) victims
  unfolding swap_with
  swap_with-none plan c cs [] e = tt
  swap_with-none plan c cs (v ∷ vs) e = ground arith

  plan_step-none :
      (plan : Plan A) (c : A) (cs : List A)
      → plan_step va never beats cap plan c ≡ none
      → Stops (c ∷ cs) plan plan
  unfolding plan_step never swap_with
  plan_step-none plan c cs e = record {
    done = [];
    rest = c ∷ cs;
    split = refl;
    promoted = sym (append-nil plan.to_promote);
    reason = elim (Bool-cases (ltb_ℤ (pos (length plan.to_promote)) cap)) [
      | inr full ↦ inr (inl full)
      | inl room ↦ inr (inr (ground arith, swap_with-none plan c cs plan.victims (ground arith)))
    ];
  }

  -- A round that promotes the next candidate, before the rest of the loop.
  Round-Stops :
      (plan : Plan A) (c : A) (plan' : Plan A) (cs : List A) (last : Plan A)
      → Round va never beats plan c plan'
      → Stops cs plan' last
      → Stops (c ∷ cs) plan last
  unfolding never
  Round-Stops plan c plan' cs last (Round.skips e s) m = absurd (cc)
  Round-Stops plan c plan' cs last (Round.fills e s f) m = record {
    done = c ∷ m.done;
    rest = m.rest;
    split = ap (◌∷◌ c) m.split;
    promoted =
        m.promoted
        ∙ ap (λ p. p.to_promote ++ map va m.done) e
        ∙ append_assoc plan.to_promote (va c ∷ []) (map va m.done);
    reason = m.reason;
  }
  Round-Stops plan c plan' cs last (Round.swaps v vs e ev b s f) m = record {
    done = c ∷ m.done;
    rest = m.rest;
    split = ap (◌∷◌ c) m.split;
    promoted =
        m.promoted
        ∙ ap (λ p. p.to_promote ++ map va m.done) e
        ∙ append_assoc plan.to_promote (va c ∷ []) (map va m.done);
    reason = m.reason;
  }

  pub make_plan-Stops :
      (candidates : List A) (plan : Plan A)
      → Stops candidates plan (make_plan va (λ free c. false) beats cap candidates plan)
  unfolding make_plan for_each never
  make_plan-Stops [] plan = record {
    done = [];
    rest = [];
    split = refl;
    promoted = sym (append-nil plan.to_promote);
    reason = inl refl;
  }
  make_plan-Stops (c ∷ cs) plan = elim (Option-cases (plan_step va never beats cap plan c)) [
    | inl e ↦ rw (e, for_each) (plan_step-none plan c cs e)
    | inr (plan', e) ↦
        rw (e, for_each)
          (Round-Stops plan c plan' cs _ (plan_step-Round va never beats cap plan c plan' e).1
            (make_plan-Stops cs plan'))
  ]
