-- ===== src/Sampler/Epoch.antt =====
-- `EbpfSampler::sample_epoch`: the map is read into `page_samples` and cleared.
pub mod Transfer
use os_research_codebase.Prelude.{
  ℕ, zero, suc, ◌+◌, ◌≡◌, Bool, true, false, ◌&&◌, ltb, if◌then◌else◌, List, [], ◌∷◌, ◌++◌, Option,
  none, some, ℤ, pos, ◌+ℤ◌, int_of_unsigned,
}
use os_research_codebase.Float.{Float}
use os_research_codebase.OrderedMap.{OrderedMap, find, insert}
use os_research_codebase.Page.{PageSample}
use os_research_codebase.Sampler.BpfMap.{BpfMap, total_of}
use os_research_codebase.Sampler.Regions.{VmRegion, is_workload_vma}

module _ {M : Type 0} (b : BpfMap M) where
  -- The first pass, on fuel; `none` if the fuel runs out. `key` is NULL in the first round.
  unfoldable pub collect_keys : ℕ → M → Option ℕ → Option (List ℕ)
  collect_keys zero m key = none
  collect_keys (suc fuel) m key = elim (b.next_key m key) [
    | none ↦ some []
    | some k ↦ elim (collect_keys fuel m (some k)) [ none ↦ none | some ks ↦ some (k ∷ ks) ]
  ]

  module _ {D : Type 0} ⦃f : Float D⦄ (regions : List VmRegion) where
    abbrev new_sample : PageSample D
    new_sample = record { sample_count = pos 0; total_latency_cycles = f.of_int (pos 0) }

    -- `page_samples[k]`, which makes a new entry if there is none.
    abbrev pub or_new : Option (PageSample D) → PageSample D
    or_new none = new_sample
    or_new (some s) = s

    -- The part of the second pass's body that adds a key's total.
    unfoldable pub aggregate :
        ℕ → Option (List ℕ) → OrderedMap (PageSample D) → OrderedMap (PageSample D)
    aggregate k none samples = samples
    aggregate k (some values) samples =
        let total = total_of values in
        let s = or_new (find k samples) in
        if ltb 0 total && is_workload_vma regions k
        then insert k (record s { sample_count = s.sample_count +ℤ int_of_unsigned total }) samples
        else samples

    -- The second pass.
    unfoldable pub drain : List ℕ → M → OrderedMap (PageSample D) → M × OrderedMap (PageSample D)
    unfolding aggregate
    drain [] m samples = (m, samples)
    drain (k ∷ ks) m samples = drain ks (b.delete m k) (aggregate k (b.lookup m k) samples)

    -- `sample_epoch`, from the samples that `reset` empties.
    unfoldable pub sample_epoch : ℕ → M → Option (M × OrderedMap (PageSample D))
    unfolding collect_keys drain
    sample_epoch fuel m = elim (collect_keys fuel m none) [
      | none ↦ none
      | some keys ↦ some (drain keys m [])
    ]

module _ {D : Type 0} where
  unfoldable pub get_sample_count : OrderedMap (PageSample D) → ℕ → ℤ
  get_sample_count samples va = elim (find va samples) [ none ↦ pos 0 | some s ↦ s.sample_count ]

module _ {D : Type 0} ⦃f : Float D⦄ where
  unfoldable pub get_avg_latency : ℕ → D
  get_avg_latency va = f.decimal 0 1
