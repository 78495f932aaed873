-- ===== src/Sampler/Flow/Sums.antt =====
-- What the samples that `EbpfSampler::sample_epoch` of daemon/ebpf_sampler.cpp gathers come to.
use mathlib.Core.Option
use os_research_codebase.Prelude.{
  ℕ, ◌+◌, ◌^◌, ◌<◌, ◌≡◌, refl, Bool, true, false, ◌&&◌, ltb, ◌==◌, if◌then◌else◌, List, [], ◌∷◌,
  Option, none, some, ℤ, pos, pos_part, neg_part, ◌+ℤ◌, +ℤ_parts, eq_of_parts, int_of_unsigned,
  int_of_unsigned-lt, arith, All, Bool-cases, inl, inr, ap, ◌∙◌,
}
use os_research_codebase.Float.{Float}
use os_research_codebase.OrderedMap.{OrderedMap, find, insert}
use os_research_codebase.Page.{PageSample}
use os_research_codebase.Sorting.{Distinct, AllValid, differs}
use os_research_codebase.Sampler.BpfMap.{is_among, BpfMap, Deletes, total_of}
use os_research_codebase.Sampler.Regions.{VmRegion, is_workload_vma}
use os_research_codebase.Sampler.Epoch.{aggregate, drain, or_new}
use os_research_codebase.Sampler.Epoch.Transfer.{find-aggregate_ne}
use os_research_codebase.Sampler.Flow.{amount, counted}
use os_research_codebase.Sampler.Flow.Keys.{key_sum, key_sum-ext}
use os_research_codebase.TierManager.Accesses.Hits.{sum_where}

module _ {D : Type 0} where
  -- The sum of the counts of the pages that pass.
  abbrev pub sample_sum : (ℕ → Bool) → OrderedMap (PageSample D) → ℕ
  sample_sum p [] = 0
  sample_sum p ((va, s) ∷ rest) = (if p va then pos_part s.sample_count else 0) + sample_sum p rest

  abbrev pub AllNonneg : OrderedMap (PageSample D) → Type 0
  AllNonneg = All (λ e. neg_part e.1.sample_count ≡ 0)

  pub sum_where-eq-sample_sum :
      (p : ℕ → Bool) (acc : ℕ) (samples : OrderedMap (PageSample D))
      → AllNonneg samples
      → sum_where p (pos acc) samples ≡ pos (acc + sample_sum p samples)
  unfolding sum_where
  sum_where-eq-sample_sum p acc [] h = ap pos (omega arith)
  sum_where-eq-sample_sum p acc ((va, s) ∷ rest) (h, hs) =
      ap (λ a. sum_where p a rest) (entered (p va) s.sample_count h)
      ∙ sum_where-eq-sample_sum p (acc + (if p va then pos_part s.sample_count else 0)) rest hs
      ∙ ap pos (omega arith)
    where
      entered :
          (c : Bool) (n : ℤ)
          → neg_part n ≡ 0
          → (if c then pos acc +ℤ n else pos acc) ≡ pos (acc + (if c then pos_part n else 0))
      entered true n z =
          ground (arith, +ℤ_parts (pos acc) n, eq_of_parts (pos acc +ℤ n) (pos (acc + pos_part n)))
      entered false n z = ap pos (omega arith)

  sample_sum-insert :
      (p : ℕ → Bool) (k : ℕ) (s : PageSample D) (samples : OrderedMap (PageSample D))
      → find k samples ≡ none
      → sample_sum p (insert k s samples)
        ≡ (if p k then pos_part s.sample_count else 0) + sample_sum p samples
  unfolding find insert
  sample_sum-insert p k s [] e = refl
  sample_sum-insert p k s ((j, t) ∷ rest) e = ground (arith, sample_sum-insert p k s rest)

  insert-AllNonneg :
      (k : ℕ) (s : PageSample D) (samples : OrderedMap (PageSample D))
      → neg_part s.sample_count ≡ 0
      → AllNonneg samples
      → AllNonneg (insert k s samples)
  unfolding insert
  insert-AllNonneg k s [] h hs = (h, tt)
  insert-AllNonneg k s ((j, t) ∷ rest) h (x, xs) = ground (arith, insert-AllNonneg k s rest h xs)

-- What a key adds: its counters' sum, if it passes and is in a region.
abbrev pub contribution : {M : Type 0} → BpfMap M → List VmRegion → (ℕ → Bool) → M → ℕ → ℕ
contribution b regions p m k = if p k && is_workload_vma regions k then counted b m k else 0

without_total :
    (o : Option (List ℕ)) (t : ℕ) → amount (Option.map total_of o) ≡ t → o ≡ none → t ≡ 0
without_total o t e z = ground (arith, e, ap (λ x. amount (Option.map total_of x)) z)

with_total :
    (o : Option (List ℕ)) (values : List ℕ) (t : ℕ)
    → amount (Option.map total_of o) ≡ t
    → o ≡ some values
    → t ≡ total_of values
with_total o values t e z = ground (arith, e, ap (λ x. amount (Option.map total_of x)) z)

other :
    (k j : ℕ) (rest : List ℕ)
    → AllValid (differs j) rest
    → is_among k rest ≡ true
    → (k == j) ≡ false
other k j [] d a = absurd (ground (arith, a))
other k j (i ∷ rest) (d, ds) a = ground (arith, a, d, other k j rest ds)

module _ {M : Type 0} (b : BpfMap M) (regions : List VmRegion) (p : ℕ → Bool)
    (deletes : Deletes b) where
  delete_other : (k j : ℕ) (m : M) → (k == j) ≡ false → b.lookup (b.delete m j) k ≡ b.lookup m k
  delete_other k j m n = ground (arith, deletes.lookup-delete m k j, n)

  counted-delete : (k j : ℕ) (m : M) → counted b m k < 2 ^ 31 → counted b (b.delete m j) k < 2 ^ 31
  counted-delete k j m h = elim (Bool-cases (k == j)) [
    | inl e ↦
        ground (arith, ap (λ o. amount (Option.map total_of o)) (deletes.lookup-delete m k j), e)
    | inr n ↦ ground (arith, ap (λ o. amount (Option.map total_of o)) (delete_other k j m n), h)
  ]

  -- The deletion of a key leaves what the others add.
  contribution-delete :
      (m : M) (j : ℕ) (rest : List ℕ)
      → AllValid (differs j) rest
      → key_sum (contribution b regions p (b.delete m j)) rest
        ≡ key_sum (contribution b regions p m) rest
  contribution-delete m j rest d =
      key_sum-ext (contribution b regions p (b.delete m j)) (contribution b regions p m) rest
        (λ k a.
          ap (λ o. if p k && is_workload_vma regions k then amount (Option.map total_of o) else 0)
            (delete_other k j m (other k j rest d a)))

module _ {M : Type 0} (b : BpfMap M) {D : Type 0} ⦃f : Float D⦄ (regions : List VmRegion)
    (p : ℕ → Bool) where
  -- The entry that a key gets.
  abbrev first_sample : Option (PageSample D) → ℕ → PageSample D
  first_sample o total = record (or_new b regions o) {
    sample_count = (or_new b regions o).sample_count +ℤ int_of_unsigned total;
  }

  first_count :
      (o : Option (PageSample D)) (total : ℕ)
      → o ≡ none
      → total < 2 ^ 31
      → (first_sample o total).sample_count ≡ pos total
  first_count none total z h = eq_of_parts _ (pos total) (
      ground (
        arith,
        int_of_unsigned-lt total h,
        +ℤ_parts (pos 0) (int_of_unsigned total),
        ap pos_part (int_of_unsigned-lt total h),
        ap neg_part (int_of_unsigned-lt total h),
      ))
  first_count (some s) total z h = absurd (ground (arith, z))

  aggregate_sum :
      (k : ℕ) (o : Option (List ℕ)) (t : ℕ) (samples : OrderedMap (PageSample D))
      → find k samples ≡ none
      → amount (Option.map total_of o) ≡ t
      → t < 2 ^ 31
      → AllNonneg samples
      → (sample_sum p (aggregate b regions k o samples)
          ≡ (if p k && is_workload_vma regions k then t else 0) + sample_sum p samples)
        × AllNonneg (aggregate b regions k o samples)
  unfolding aggregate
  aggregate_sum k none t samples e c small h = (ground (arith, c), h)
  aggregate_sum k (some values) t samples e c small h =
      elim (Bool-cases (ltb 0 (total_of values) && is_workload_vma regions k)) [
        | inl g ↦
            let s = first_sample (find k samples) (total_of values) in
            let n = first_count (find k samples) (total_of values) e (omega (arith, small, c)) in
            rw (g, aggregate)
              (
                ground (arith, sample_sum-insert p k s samples e, n, c, g),
                insert-AllNonneg k s samples (ap neg_part n) h,
              )
        | inr g ↦ rw (g, aggregate) (ground (arith, c, g), h)
      ]

  find-aggregate_fresh :
      (k j : ℕ) (o : Option (List ℕ)) (samples : OrderedMap (PageSample D)) (rest : List ℕ)
      → AllValid (differs j) rest
      → is_among k rest ≡ true
      → find k samples ≡ none
      → find k (aggregate b regions j o samples) ≡ none
  find-aggregate_fresh k j o samples rest d a e =
      find-aggregate_ne b regions k j o samples (other k j rest d a) ∙ e

  module _ (deletes : Deletes b) where
    pub drain_sum :
        (keys : List ℕ) (m : M) (samples : OrderedMap (PageSample D))
        → Distinct keys
        → ((k : ℕ) → is_among k keys ≡ true → find k samples ≡ none)
        → ((k : ℕ) → counted b m k < 2 ^ 31)
        → AllNonneg samples
        → (sample_sum p (drain b regions keys m samples).1
            ≡ key_sum (contribution b regions p m) keys + sample_sum p samples)
          × AllNonneg (drain b regions keys m samples).1
    unfolding drain
    drain_sum [] m samples d e small h = (omega arith, h)
    drain_sum (j ∷ js) m samples (d, ds) e small h =
        let next = aggregate b regions j (b.lookup m j) samples in
        let one =
          aggregate_sum j (b.lookup m j) (counted b m j) samples (e j (ground arith)) refl (small j)
            h in
        let rest =
          drain_sum js (b.delete m j) next ds
            (λ k a.
              find-aggregate_fresh k j (b.lookup m j) samples js d a (e k (ground (arith, a))))
            (λ k. counted-delete b regions p deletes k j m (small k)) one.1 in
        (omega (arith, rest.0, one.0, contribution-delete b regions p deletes m j js d), rest.1)
