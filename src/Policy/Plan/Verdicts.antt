-- ===== src/Policy/Plan/Verdicts.antt =====
-- What the promote/demote loop decides of each candidate, and why it stops.
use mathlib.Core.List.{append-nil, append_assoc}
use os_research_codebase.Prelude.{
  ℕ, ◌≡◌, refl, sym, ◌∙◌, ap, inl, inr, ◌⊎◌, Bool, true, false, List, [], ◌∷◌, ◌++◌, map, none, ℤ,
  pos, ltb_ℤ, ◌-ℤ◌, Option-cases, length, for_each, arith, Bool-cases, subst,
}
use os_research_codebase.Policy.Plan.{Plan, empty_plan, swap_with, plan_step, make_plan}
use os_research_codebase.Policy.Plan.Rounds.{Round, plan_step-Round}

-- A candidate is left out, takes a free slot, or takes a victim's place.
pub data Verdict (A : Type 0) : Type 0 where
  left : Verdict A
  fills : Verdict A
  swaps : A → Verdict A

module _ {A : Type 0} where
  abbrev pub slots_after : Verdict A → ℤ → ℤ
  slots_after left free = free
  slots_after fills free = free -ℤ pos 1
  slots_after (swaps v) free = free

  abbrev pub slots_left : List (A × Verdict A) → ℤ → ℤ
  slots_left [] free = free
  slots_left ((c, k) ∷ js) free = slots_left js (slots_after k free)

  abbrev pub promoted_by : List (A × Verdict A) → List A
  promoted_by [] = []
  promoted_by ((c, left) ∷ js) = promoted_by js
  promoted_by ((c, fills) ∷ js) = c ∷ promoted_by js
  promoted_by ((c, swaps v) ∷ js) = c ∷ promoted_by js

  abbrev pub demoted_by : List (A × Verdict A) → List A
  demoted_by [] = []
  demoted_by ((c, left) ∷ js) = demoted_by js
  demoted_by ((c, fills) ∷ js) = demoted_by js
  demoted_by ((c, swaps v) ∷ js) = v ∷ demoted_by js

  -- Each verdict is right at the number of slots that the verdicts before it leave free.
  abbrev pub AllRight : (ℤ → A → Verdict A → Type 0) → ℤ → List (A × Verdict A) → Type 0
  AllRight right free [] = Unit
  AllRight right free ((c, k) ∷ js) = right free c k × AllRight right (slots_after k free) js

  AllRight-weaken :
      {right right' : ℤ → A → Verdict A → Type 0}
      → ((free : ℤ) (c : A) (k : Verdict A) → right free c k → right' free c k)
      → (free : ℤ) (js : List (A × Verdict A)) → AllRight right free js
      → AllRight right' free js
  AllRight-weaken w free [] h = tt
  AllRight-weaken w free ((c, k) ∷ js) (h, hs) =
      (w free c k h, AllRight-weaken w (slots_after k free) js hs)

  -- The loop over `candidates` judges them in turn, by `right`, up to a point: it promotes and demotes
  -- by its verdicts, the victims from the front, and ends with the candidates, with a full batch, or,
  -- when no slot is free, at a candidate that is `held` up by the victims that are left.
  pub record Verdicts (va : A → ℕ) (cap : ℤ) (right : ℤ → A → Verdict A → Type 0)
      (held : A → List A → Type 0) (candidates : List A) (plan plan' : Plan A) : Type 0 where
    pub judged : List (A × Verdict A)
    pub rest : List A
    pub split : candidates ≡ map (λ j. j.0) judged ++ rest
    pub promoted : plan'.to_promote ≡ plan.to_promote ++ map va (promoted_by judged)
    pub demoted : plan'.to_demote ≡ plan.to_demote ++ map va (demoted_by judged)
    pub from_front : demoted_by judged ++ plan'.victims ≡ plan.victims
    pub slots : plan'.free_fast_slots ≡ slots_left judged plan.free_fast_slots
    pub all_right : AllRight right plan.free_fast_slots judged
    pub reason :
        (rest ≡ [])
        ⊎ (ltb_ℤ (pos (length plan'.to_promote)) cap ≡ false)
        ⊎ (ltb_ℤ (pos 0) plan'.free_fast_slots ≡ false)
          × (c : A) × (cs : List A) × (rest ≡ c ∷ cs)
          × held c plan'.victims

  pub Verdicts-weaken :
      {va : A → ℕ} {cap : ℤ} {right right' : ℤ → A → Verdict A → Type 0}
      {held held' : A → List A → Type 0} {candidates : List A} {plan plan' : Plan A}
      → ((free : ℤ) (c : A) (k : Verdict A) → right free c k → right' free c k)
      → ((c : A) (vs : List A) → held c vs → held' c vs)
      → Verdicts va cap right held candidates plan plan'
      → Verdicts va cap right' held' candidates plan plan'
  Verdicts-weaken {held} {held'} {plan'} w u v = record {
    judged = v.judged;
    rest = v.rest;
    split = v.split;
    promoted = v.promoted;
    demoted = v.demoted;
    from_front = v.from_front;
    slots = v.slots;
    all_right = AllRight-weaken w _ v.judged v.all_right;
    reason = elim v.reason [
      | inl e ↦ inl e
      | inr (inl full) ↦ inr (inl full)
      | inr (inr (none_free, c, cs, e, h)) ↦ inr (inr (none_free, c, cs, e, u c plan'.victims h))
    ];
  }

module _ {A : Type 0} (skip : ℤ → A → Bool) (beats : A → A → Bool) where
  -- What the two tests of the loop say.
  abbrev pub ByTests : ℤ → A → Verdict A → Type 0
  ByTests free c left = skip free c ≡ true
  ByTests free c fills = (skip free c ≡ false) × (ltb_ℤ (pos 0) free ≡ true)
  ByTests free c (swaps v) =
      (skip free c ≡ false) × (ltb_ℤ (pos 0) free ≡ false) × (beats c v ≡ true)

  abbrev pub HeldUp : A → List A → Type 0
  HeldUp c [] = (free : ℤ) × (ltb_ℤ (pos 0) free ≡ false) × (skip free c ≡ false)
  HeldUp c (v ∷ vs) =
      (free : ℤ) × (ltb_ℤ (pos 0) free ≡ false) × (skip free c ≡ false) × (beats c v ≡ false)

module _ {A : Type 0} (va : A → ℕ) (skip : ℤ → A → Bool) (beats : A → A → Bool) (cap : ℤ) where
  abbrev Judges : List A → Plan A → Plan A → Type 0
  Judges = Verdicts va cap (ByTests skip beats) (HeldUp skip beats)

  swap_with-none :
      (plan : Plan A) (c : A) (victims : List A)
      → swap_with va skip beats cap plan c victims ≡ none
      → ltb_ℤ (pos 0) plan.free_fast_slots ≡ false
      → skip plan.free_fast_slots c ≡ false
      → HeldUp skip beats c victims
  unfolding swap_with
  swap_with-none plan c [] e f s = (plan.free_fast_slots, f, s)
  swap_with-none plan c (v ∷ vs) e f s = (plan.free_fast_slots, f, s, ground arith)

  stopped-Judges :
      (plan : Plan A) (candidates : List A)
      → (candidates ≡ [])
        ⊎ (ltb_ℤ (pos (length plan.to_promote)) cap ≡ false)
        ⊎ (ltb_ℤ (pos 0) plan.free_fast_slots ≡ false)
          × (c : A) × (cs : List A) × (candidates ≡ c ∷ cs)
          × HeldUp skip beats c plan.victims
      → Judges candidates plan plan
  stopped-Judges plan candidates why = record {
    judged = [];
    rest = candidates;
    split = refl;
    promoted = sym (append-nil plan.to_promote);
    demoted = sym (append-nil plan.to_demote);
    from_front = refl;
    slots = refl;
    all_right = tt;
    reason = why;
  }

  plan_step-none :
      (plan : Plan A) (c : A) (cs : List A)
      → plan_step va skip beats cap plan c ≡ none
      → Judges (c ∷ cs) plan plan
  unfolding plan_step swap_with
  plan_step-none plan c cs e =
      stopped-Judges plan (c ∷ cs) (elim (Bool-cases (ltb_ℤ (pos (length plan.to_promote)) cap)) [
        | inr full ↦ inr (inl full)
        | inl room ↦
            let none_free : ltb_ℤ (pos 0) plan.free_fast_slots ≡ false = ground arith in
            inr (
              inr (
                none_free,
                c,
                cs,
                refl,
                swap_with-none plan c plan.victims (ground arith) none_free (ground arith),
              ))
      ])

  -- A round that does not end the loop, before the rest of the loop.
  Round-Judges :
      (plan : Plan A) (c : A) (plan' : Plan A) (cs : List A) (last : Plan A)
      → Round va skip beats plan c plan'
      → Judges cs plan' last
      → Judges (c ∷ cs) plan last
  Round-Judges plan c plan' cs last (Round.skips e s) m = record {
    judged = (c, left) ∷ m.judged;
    rest = m.rest;
    split = ap (◌∷◌ c) m.split;
    promoted = m.promoted ∙ ap (λ p. p.to_promote ++ map va (promoted_by m.judged)) e;
    demoted = m.demoted ∙ ap (λ p. p.to_demote ++ map va (demoted_by m.judged)) e;
    from_front = m.from_front ∙ ap (λ p. p.victims) e;
    slots = m.slots ∙ ap (λ p. slots_left m.judged p.free_fast_slots) e;
    all_right =
        (s, subst (λ p. AllRight (ByTests skip beats) p.free_fast_slots m.judged) e m.all_right);
    reason = m.reason;
  }
  Round-Judges plan c plan' cs last (Round.fills e s f) m = record {
    judged = (c, fills) ∷ m.judged;
    rest = m.rest;
    split = ap (◌∷◌ c) m.split;
    promoted =
        m.promoted
        ∙ ap (λ p. p.to_promote ++ map va (promoted_by m.judged)) e
        ∙ append_assoc plan.to_promote (va c ∷ []) (map va (promoted_by m.judged));
    demoted = m.demoted ∙ ap (λ p. p.to_demote ++ map va (demoted_by m.judged)) e;
    from_front = m.from_front ∙ ap (λ p. p.victims) e;
    slots = m.slots ∙ ap (λ p. slots_left m.judged p.free_fast_slots) e;
    all_right = (
      (s, f),
      subst (λ p. AllRight (ByTests skip beats) p.free_fast_slots m.judged) e m.all_right,
    );
    reason = m.reason;
  }
  Round-Judges plan c plan' cs last (Round.swaps v vs e ev b s f) m = record {
    judged = (c, swaps v) ∷ m.judged;
    rest = m.rest;
    split = ap (◌∷◌ c) m.split;
    promoted =
        m.promoted
        ∙ ap (λ p. p.to_promote ++ map va (promoted_by m.judged)) e
        ∙ append_assoc plan.to_promote (va c ∷ []) (map va (promoted_by m.judged));
    demoted =
        m.demoted
        ∙ ap (λ p. p.to_demote ++ map va (demoted_by m.judged)) e
        ∙ append_assoc plan.to_demote (va v ∷ []) (map va (demoted_by m.judged));
    from_front = ap (◌∷◌ v) (m.from_front ∙ ap (λ p. p.victims) e) ∙ sym ev;
    slots = m.slots ∙ ap (λ p. slots_left m.judged p.free_fast_slots) e;
    all_right = (
      (s, f, b),
      subst (λ p. AllRight (ByTests skip beats) p.free_fast_slots m.judged) e m.all_right,
    );
    reason = m.reason;
  }

  make_plan_from-Verdicts :
      (candidates : List A) (plan : Plan A)
      → Judges candidates plan (make_plan va skip beats cap candidates plan)
  unfolding make_plan for_each
  make_plan_from-Verdicts [] plan = stopped-Judges plan [] (inl refl)
  make_plan_from-Verdicts (c ∷ cs) plan = elim (Option-cases (plan_step va skip beats cap plan c)) [
    | inl e ↦ rw (e, for_each) (plan_step-none plan c cs e)
    | inr (plan', e) ↦
        rw (e, for_each)
          (Round-Judges plan c plan' cs _ (plan_step-Round va skip beats cap plan c plan' e).1
            (make_plan_from-Verdicts cs plan'))
  ]

  -- The whole loop, from the empty plan.
  pub make_plan-Verdicts :
      (candidates victims : List A) (free : ℤ)
      → Judges candidates
          (empty_plan free victims)
          (make_plan va skip beats cap candidates (empty_plan free victims))
  make_plan-Verdicts candidates victims free =
      make_plan_from-Verdicts candidates (empty_plan free victims)
