-- ===== src/Sampler/Epoch/Transfer.antt =====
-- `sample_epoch` ends, takes over the total of each key of the map, and clears the map.
use os_research_codebase.Prelude.{
  ℕ, zero, suc, ◌<◌, ◌≡◌, refl, sym, ◌∙◌, true, false, ◌&&◌, ltb, if◌then◌else◌, ◌==◌, List, [],
  ◌∷◌, ◌++◌, All, Option, none, some, arith, length, Bool-cases, inl, inr, ◌+ℤ◌, int_of_unsigned,
}
use mathlib.Core.List.{append_assoc}
use os_research_codebase.Float.{Float}
use os_research_codebase.OrderedMap.{OrderedMap, find, find-insert}
use os_research_codebase.Page.{PageSample}
use os_research_codebase.Sorting.{Distinct, differs, AllValid}
use os_research_codebase.Sampler.BpfMap.{
  BpfMap, Visits, Deletes, key_after, first_key, is_among, total_of,
}
use os_research_codebase.Sampler.Regions.{VmRegion, is_workload_vma}
use os_research_codebase.Sampler.Epoch.{collect_keys, aggregate, drain, sample_epoch, or_new}

-- Every key of the list leads to the next, by `next`, and the last to none.
abbrev IsChain : (ℕ → Option ℕ) → ℕ → List ℕ → Type 0
IsChain next k [] = next k ≡ none
IsChain next k (j ∷ js) = (next k ≡ some j) × IsChain next j js

differs_among : (k : ℕ) (js : List ℕ) → AllValid (differs k) js → is_among k js ≡ false
differs_among k [] d = refl
differs_among k (j ∷ js) (d, ds) = ground (arith, differs_among k js ds)

-- Behind a prefix that does not hold `k`, the key after `k` is the first of what follows.
key_after-append :
    (pre : List ℕ) (k : ℕ) (rest : List ℕ)
    → is_among k pre ≡ false
    → key_after k (pre ++ k ∷ rest) ≡ first_key rest
key_after-append [] k [] h = refl
key_after-append [] k (j ∷ js) h = ground arith
key_after-append (i ∷ []) k rest h = ground (arith, key_after-append [] k rest)
key_after-append (i ∷ j ∷ pre) k rest h = ground (arith, key_after-append (j ∷ pre) k rest)

differs_behind :
    (i : ℕ) (pre : List ℕ) (k : ℕ) (rest : List ℕ)
    → AllValid (differs i) (pre ++ k ∷ rest)
    → differs i k ≡ true
differs_behind i [] k rest (d, ds) = d
differs_behind i (j ∷ pre) k rest (d, ds) = differs_behind i pre k rest ds

not_before :
    (pre : List ℕ) (k : ℕ) (rest : List ℕ) → Distinct (pre ++ k ∷ rest) → is_among k pre ≡ false
not_before [] k rest d = refl
not_before (i ∷ pre) k rest (d, ds) =
    ground (arith, differs_behind i pre k rest d, not_before pre k rest ds)

keys-IsChain :
    (keys pre : List ℕ) (k : ℕ) (rest : List ℕ)
    → keys ≡ pre ++ k ∷ rest
    → Distinct keys
    → IsChain (λ j. key_after j keys) k rest
keys-IsChain keys pre k [] e d = rw e (key_after-append pre k [] (not_before pre k [] (rw e at d)))
keys-IsChain keys pre k (j ∷ js) e d = (
  rw e (key_after-append pre k (j ∷ js) (not_before pre k (j ∷ js) (rw e at d))),
  keys-IsChain keys (pre ++ k ∷ []) j js (e ∙ sym (append_assoc pre (k ∷ []) (j ∷ js))) d,
)

-- A chain is one of any function that agrees on its keys.
IsChain-agree :
    (next next' : ℕ → Option ℕ) (k : ℕ) (js : List ℕ)
    → next k ≡ next' k
    → All (λ j. next j ≡ next' j) js
    → IsChain next' k js
    → IsChain next k js
IsChain-agree next next' k [] e es c = e ∙ c
IsChain-agree next next' k (j ∷ js) e (d, ds) (c, cs) =
    (e ∙ c, IsChain-agree next next' j js d ds cs)

weaken_among :
    {P : ℕ → Type 0} (keys js : List ℕ)
    → ((j : ℕ) → is_among j keys ≡ true → P j)
    → ((j : ℕ) → is_among j js ≡ true → is_among j keys ≡ true)
    → All P js
weaken_among keys [] p w = tt
weaken_among keys (j ∷ js) p w =
    (p j (w j (ground arith)), weaken_among keys js p (λ i e. w i (ground (arith, e))))

module _ {M : Type 0} (b : BpfMap M) where
  collect_chain :
      (fuel : ℕ) (m : M) (k : ℕ) (rest : List ℕ)
      → length rest < fuel
      → IsChain (λ j. b.next_key m (some j)) k rest
      → collect_keys b fuel m (some k) ≡ some rest
  unfolding collect_keys
  collect_chain zero m k rest h c = absurd (omega arith)
  collect_chain (suc fuel) m k [] h c = rw (c, collect_keys)
  collect_chain (suc fuel) m k (j ∷ js) h (c, cs) =
      rw (c, collect_keys) (rw (collect_chain fuel m j js (omega arith) cs))

  -- The first pass ends and gives the keys that an iteration visits.
  pub collect_keys-Visits :
      (fuel : ℕ) (m : M) (keys : List ℕ)
      → Visits b m keys
      → Distinct keys
      → length keys < fuel
      → collect_keys b fuel m none ≡ some keys
  unfolding collect_keys
  collect_keys-Visits zero m keys v d h = absurd (omega arith)
  collect_keys-Visits (suc fuel) m [] v d h = rw (v.first, collect_keys)
  collect_keys-Visits (suc fuel) m (k ∷ rest) v d h =
      rw (v.first, collect_keys)
        (rw (
          collect_chain fuel m k rest (omega arith) (
            IsChain-agree (λ j. b.next_key m (some j)) (λ j. key_after j (k ∷ rest)) k rest
              (v.next k (ground arith))
              (weaken_among (k ∷ rest) rest v.next (λ j e. ground (arith, e)))
              (keys-IsChain (k ∷ rest) [] k rest refl d))))

  module _ {D : Type 0} ⦃f : Float D⦄ (regions : List VmRegion) where
    pub find-aggregate_ne :
        (k j : ℕ) (values : Option (List ℕ)) (samples : OrderedMap (PageSample D))
        → (k == j) ≡ false
        → find k (aggregate b regions j values samples) ≡ find k samples
    unfolding aggregate
    find-aggregate_ne k j none samples h = refl
    find-aggregate_ne k j (some values) samples h =
        elim (Bool-cases (ltb 0 (total_of values) && is_workload_vma regions j)) [
          | inl e ↦ rw (e, aggregate, find-insert, h)
          | inr e ↦ rw (e, aggregate)
        ]

    -- The entry of a key depends on the old entry of that key alone.
    unfoldable pub aggregated : ℕ → Option (List ℕ) → Option (PageSample D) → Option (PageSample D)
    aggregated k none o = o
    aggregated k (some values) o =
        let s = or_new b regions o in
        if ltb 0 (total_of values) && is_workload_vma regions k
        then some (record s { sample_count = s.sample_count +ℤ int_of_unsigned (total_of values) })
        else o

    find-aggregate_self :
        (k : ℕ) (values : Option (List ℕ)) (samples : OrderedMap (PageSample D))
        → find k (aggregate b regions k values samples) ≡ aggregated k values (find k samples)
    unfolding aggregate aggregated
    find-aggregate_self k none samples = refl
    find-aggregate_self k (some values) samples =
        elim (Bool-cases (ltb 0 (total_of values) && is_workload_vma regions k)) [
          | inl e ↦ rw (e, aggregate, aggregated, find-insert) (ground arith)
          | inr e ↦ rw (e, aggregate, aggregated)
        ]

    module _ (deletes : Deletes b) where
      pub drained :
          (k : ℕ) (keys : List ℕ) (m : M) (samples : OrderedMap (PageSample D))
          → Distinct keys
          → (find k (drain b regions keys m samples).1 ≡ (
              if is_among k keys
              then aggregated k (b.lookup m k) (find k samples)
              else find k samples))
            × (b.lookup (drain b regions keys m samples).0 k
                ≡ (if is_among k keys then none else b.lookup m k))
      unfolding drain
      drained k [] m samples d = (refl, refl)
      drained k (j ∷ js) m samples (d, ds) = ground (
        arith,
        drained k js (b.delete m j) (aggregate b regions j (b.lookup m j) samples) ds,
        deletes.lookup-delete m k j,
        find-aggregate_ne k j (b.lookup m j) samples,
        find-aggregate_self j (b.lookup m j) samples,
        differs_among j js d,
      )

      pub sample_epoch_transfer :
          (fuel : ℕ) (m : M) (keys : List ℕ) (k : ℕ)
          → Visits b m keys
          → Distinct keys
          → length keys < fuel
          → (m' : M) × (samples : OrderedMap (PageSample D)) × (sample_epoch b regions fuel m
              ≡ some (m', samples))
            × (find k samples
                ≡ (if is_among k keys then aggregated k (b.lookup m k) none else none))
            × (b.lookup m' k ≡ (if is_among k keys then none else b.lookup m k))
      unfolding sample_epoch find
      sample_epoch_transfer fuel m keys k v d h = (
        (drain b regions keys m []).0,
        (drain b regions keys m []).1,
        rw (collect_keys-Visits fuel m keys v d h, sample_epoch),
        (drained k keys m [] d).0,
        (drained k keys m [] d).1,
      )
