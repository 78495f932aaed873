-- ===== src/Policy/Plan/Moves.antt =====
-- What a plan consists of: each promoted candidate with the victim whose place it takes, if any.
use mathlib.Core.List.{Sublistᴰ}
use mathlib.Core.List.{append-nil, append_assoc}
use os_research_codebase.Prelude.{
  ℕ, ◌≡◌, refl, sym, ◌∙◌, ap, inl, inr, Bool, true, false, List, [], ◌∷◌, ◌++◌, map, Option, none,
  some, ℤ, pos, ltb_ℤ, All, Option-cases, for_each,
}
use os_research_codebase.Policy.Plan.{Plan, empty_plan, plan_step, make_plan}
use os_research_codebase.Policy.Plan.Rounds.{Round, plan_step-Round}

module _ {A : Type 0} where
  abbrev pub candidates_of : List (A × Option A) → List A
  candidates_of = map (λ p. p.0)

  abbrev pub victims_of : List (A × Option A) → List A
  victims_of [] = []
  victims_of ((c, none) ∷ ms) = victims_of ms
  victims_of ((c, some v) ∷ ms) = v ∷ victims_of ms

module _ {A : Type 0} (va : A → ℕ) (skip : ℤ → A → Bool) (beats : A → A → Bool) where
  -- The candidate passed the test of the `continue`, and beats the victim that it replaces.
  abbrev pub Justified : A × Option A → Type 0
  Justified (c, none) = (free : ℤ) × (skip free c ≡ false) × (ltb_ℤ (pos 0) free ≡ true)
  Justified (c, some v) =
      (free : ℤ) × (skip free c ≡ false) × (ltb_ℤ (pos 0) free ≡ false) × (beats c v ≡ true)

  -- How the loop over `candidates` got from `plan` to `plan'`: the victims are taken in order from
  -- the front, and the candidates in order, some left out.
  pub record Moves (candidates : List A) (plan plan' : Plan A) : Type 0 where
    pub moves : List (A × Option A)
    pub promoted : plan'.to_promote ≡ plan.to_promote ++ map va (candidates_of moves)
    pub demoted : plan'.to_demote ≡ plan.to_demote ++ map va (victims_of moves)
    pub in_order : Sublistᴰ (candidates_of moves) candidates
    pub from_front : victims_of moves ++ plan'.victims ≡ plan.victims
    pub justified : All Justified moves

  same_plan-Moves : (candidates : List A) (plan : Plan A) → Moves candidates plan plan
  same_plan-Moves candidates plan = record {
    moves = [];
    promoted = sym (append-nil plan.to_promote);
    demoted = sym (append-nil plan.to_demote);
    in_order = nothing candidates;
    from_front = refl;
    justified = tt;
  }
    where
      nothing : (cs : List A) → Sublistᴰ [] cs
      nothing [] = Sublistᴰ.slnil
      nothing (c ∷ cs) = Sublistᴰ.cons (nothing cs)

  -- A round before the rest of the loop.
  Round-Moves :
      (plan : Plan A) (c : A) (plan' : Plan A) (candidates : List A) (last : Plan A)
      → Round va skip beats plan c plan'
      → Moves candidates plan' last
      → Moves (c ∷ candidates) plan last
  Round-Moves plan c plan' cs last (Round.skips e s) m = record {
    moves = m.moves;
    promoted = m.promoted ∙ ap (λ p. p.to_promote ++ map va (candidates_of m.moves)) e;
    demoted = m.demoted ∙ ap (λ p. p.to_demote ++ map va (victims_of m.moves)) e;
    in_order = Sublistᴰ.cons m.in_order;
    from_front = m.from_front ∙ ap (λ p. p.victims) e;
    justified = m.justified;
  }
  Round-Moves plan c plan' cs last (Round.fills e s f) m = record {
    moves = (c, none) ∷ m.moves;
    promoted =
        m.promoted
        ∙ ap (λ p. p.to_promote ++ map va (candidates_of m.moves)) e
        ∙ append_assoc plan.to_promote (va c ∷ []) (map va (candidates_of m.moves));
    demoted = m.demoted ∙ ap (λ p. p.to_demote ++ map va (victims_of m.moves)) e;
    in_order = Sublistᴰ.cons-cons refl m.in_order;
    from_front = m.from_front ∙ ap (λ p. p.victims) e;
    justified = ((plan.free_fast_slots, s, f), m.justified);
  }
  Round-Moves plan c plan' cs last (Round.swaps v vs e ev b s f) m = record {
    moves = (c, some v) ∷ m.moves;
    promoted =
        m.promoted
        ∙ ap (λ p. p.to_promote ++ map va (candidates_of m.moves)) e
        ∙ append_assoc plan.to_promote (va c ∷ []) (map va (candidates_of m.moves));
    demoted =
        m.demoted
        ∙ ap (λ p. p.to_demote ++ map va (victims_of m.moves)) e
        ∙ append_assoc plan.to_demote (va v ∷ []) (map va (victims_of m.moves));
    in_order = Sublistᴰ.cons-cons refl m.in_order;
    from_front = ap (◌∷◌ v) (m.from_front ∙ ap (λ p. p.victims) e) ∙ sym ev;
    justified = ((plan.free_fast_slots, s, f, b), m.justified);
  }

  module _ (cap : ℤ) where
    make_plan_from-Moves :
        (candidates : List A) (plan : Plan A)
        → Moves candidates plan (make_plan va skip beats cap candidates plan)
    unfolding make_plan for_each
    make_plan_from-Moves [] plan = same_plan-Moves [] plan
    make_plan_from-Moves (c ∷ cs) plan = elim (Option-cases (plan_step va skip beats cap plan c)) [
      | inl e ↦ rw (e, for_each) (same_plan-Moves (c ∷ cs) plan)
      | inr (plan', e) ↦
          rw (e, for_each)
            (Round-Moves plan c plan' cs _ (plan_step-Round va skip beats cap plan c plan' e).1
              (make_plan_from-Moves cs plan'))
    ]

    -- The whole loop, from the empty plan.
    pub make_plan-Moves :
        (candidates victims : List A) (free : ℤ)
        → Moves candidates
            (empty_plan free victims)
            (make_plan va skip beats cap candidates (empty_plan free victims))
    make_plan-Moves candidates victims free =
        make_plan_from-Moves candidates (empty_plan free victims)
