-- ===== src/Policy/Plan/Refusals.antt =====
-- What a refusal says of all that is left: with the candidates sorted hottest first and the victims
-- coldest first, no remaining candidate beats any remaining victim.
use os_research_codebase.Prelude.{ℕ, ◌≡◌, Bool, true, false, List, [], ◌∷◌, ℤ, All, arith}
use os_research_codebase.Sorting.{StrictWeak, IsSortedBy, AllValid}
use os_research_codebase.Policy.Plan.Stops.{Refused}

module _ {A : Type 0} {valid : A → Bool} {comp : A → A → Bool} (w : StrictWeak valid comp) where
  -- If `c` does not beat `v`, nothing colder than `c` beats anything hotter than `v`.
  beaten_by_none :
      (c v c' v' : A)
      → valid c ≡ true
      → valid v ≡ true
      → valid c' ≡ true
      → valid v' ≡ true
      → comp c v ≡ false
      → comp c' c ≡ false
      → comp v v' ≡ false
      → comp c' v' ≡ false
  beaten_by_none c v c' v' kc kv kc' kv' h hc hv =
      ground (arith, w.split c' c v' kc' kc kv', w.split c v v' kc kv kv')

  -- No candidate of `rest` beats any page of `victims`.
  abbrev pub NoneBeats : List A → List A → Type 0
  NoneBeats rest victims = All (λ c. All (λ v. comp c v ≡ false) victims) rest

  row :
      (c v c' : A) (vs : List A)
      → valid c ≡ true
      → valid v ≡ true
      → valid c' ≡ true
      → comp c v ≡ false
      → comp c' c ≡ false
      → AllValid valid vs
      → All (λ u. comp v u ≡ false) vs
      → All (λ u. comp c' u ≡ false) vs
  row c v c' [] kc kv kc' h hc ks s = tt
  row c v c' (u ∷ us) kc kv kc' h hc (k, ks) (s, ss) =
      (beaten_by_none c v c' u kc kv kc' k h hc s, row c v c' us kc kv kc' h hc ks ss)

  rows :
      (c v : A) (vs cs : List A)
      → valid c ≡ true
      → valid v ≡ true
      → comp c v ≡ false
      → comp c c ≡ false
      → comp v v ≡ false
      → AllValid valid vs
      → All (λ u. comp v u ≡ false) vs
      → AllValid valid cs
      → All (λ d. comp d c ≡ false) cs
      → NoneBeats cs (v ∷ vs)
  rows c v vs [] kc kv h hc hv ks s ls t = tt
  rows c v vs (d ∷ ds) kc kv h hc hv ks s (l, ls) (t, ts) = (
    (beaten_by_none c v d v kc kv l kv h t hv, row c v d vs kc kv l h t ks s),
    rows c v vs ds kc kv h hc hv ks s ls ts,
  )

  irreflexive : (a : A) → valid a ≡ true → comp a a ≡ false
  irreflexive a k = ground (arith, w.asymm a a k k)

  pub Refused-NoneBeats :
      (va : A → ℕ) (cap : ℤ) (rest victims : List A)
      → Refused va comp cap rest victims
      → AllValid valid rest
      → AllValid valid victims
      → IsSortedBy comp rest
      → IsSortedBy (λ a b. comp b a) victims
      → NoneBeats rest victims
  Refused-NoneBeats va cap [] victims r k l s t = tt
  Refused-NoneBeats va cap (c ∷ rest) [] r k l s t = nothing (c ∷ rest)
    where
      nothing : (cs : List A) → NoneBeats cs []
      nothing [] = tt
      nothing (d ∷ ds) = (tt, nothing ds)
  Refused-NoneBeats va cap (c ∷ rest) (v ∷ vs) r (k, ks) (l, ls) (s, ss) (t, ts) =
      rows c v vs (c ∷ rest) k l r (irreflexive c k) (irreflexive v l) ls t (k, ks)
        (irreflexive c k, s)
