-- ===== src/Sampler/Object/Epochs.antt =====
-- An epoch of an `EbpfSampler` of daemon/ebpf_sampler.cpp that records: the eBPF program runs, and
-- `sample_epoch` takes over what it counted.
use os_research_codebase.Prelude.{
  ℕ, ◌<◌, ◌≡◌, refl, if◌then◌else◌, List, [], none, some, pos, length, count,
}
use os_research_codebase.Float.{Float}
use os_research_codebase.Sampler.BpfMap.{BpfMap, Visits, Deletes}
use os_research_codebase.Sorting.{Distinct}
use os_research_codebase.Sampler.Regions.{VmRegion, is_workload_vma}
use os_research_codebase.Sampler.Program.{Bss, Event, sample_all}
use os_research_codebase.Sampler.Epoch.{drain, sample_epoch, get_sample_count}
use os_research_codebase.Sampler.Epoch.Transfer.{collect_keys-Visits}
use os_research_codebase.Sampler.Flow.{Counts}
use os_research_codebase.Sampler.Flow.Keys.{falls_on_key}
use os_research_codebase.Sampler.Object.{EbpfSampler, sampled_by_program, sampler_epoch}

module _ {M : Type 0} (b : BpfMap M) (D : Type 0) ⦃f : Float D⦄ where
  -- The memory of the program behind an epoch.
  abbrev pub bss_after : List VmRegion → List ℕ → List Event → Bss M → Bss M
  bss_after regions keys es bss =
      let last = sample_all b es bss in
      record last { page_counts = (drain b {D = D} regions keys last.page_counts []).0 }

module _ {M : Type 0} (b : BpfMap M) {D : Type 0} ⦃f : Float D⦄ where
  -- The object behind an epoch.
  abbrev pub sampler_after : List ℕ → List Event → D → Bss M → EbpfSampler M D → EbpfSampler M D
  sampler_after keys es parse_ms bss s = record s {
    skel = some (bss_after b D s.vma_regions keys es bss);
    page_samples = (drain b {D = D} s.vma_regions keys (sample_all b es bss).page_counts []).1;
    last_parse_duration_ms = parse_ms;
  }

  pub sampler_epoch-eq_some :
      (es : List Event) (bss : Bss M) (keys : List ℕ) (fuel : ℕ) (parse_ms : D)
      (s : EbpfSampler M D)
      → s.skel ≡ some bss
      → Visits b (sample_all b es bss).page_counts keys
      → Distinct keys
      → length keys < fuel
      → sampler_epoch b fuel parse_ms (sampled_by_program b es s)
        ≡ some (sampler_after keys es parse_ms bss s)
  unfolding sampler_epoch sampled_by_program sample_epoch
  sampler_epoch-eq_some es bss keys fuel parse_ms s k v d enough =
      rw (k, sampled_by_program)
        (rw
          (
            collect_keys-Visits b fuel (sample_all b es bss).page_counts keys v d enough,
            sampler_epoch,
          )
          refl)

module _ {M : Type 0} (b : BpfMap M) (size : M → ℕ) (counts : Counts b size) (deletes : Deletes b)
    {D : Type 0} ⦃f : Float D⦄ where
  -- What an object holds behind an epoch of the samples `es`.
  pub record TookOver (es : List Event) (bss : Bss M) (s t : EbpfSampler M D) : Type 0 where
    pub counted_right :
        (page : ℕ)
        → get_sample_count t.page_samples page ≡ (
            if is_workload_vma s.vma_regions page
            then pos (count (falls_on_key b bss.target_pid page) es)
            else pos 0)
    pub left : Bss M
    pub loaded : t.skel ≡ some left
    pub same_target : left.target_pid ≡ bss.target_pid
    pub empty : (page : ℕ) → b.lookup left.page_counts page ≡ none
    pub regions_kept : t.vma_regions ≡ s.vma_regions
