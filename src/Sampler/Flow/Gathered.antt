-- ===== src/Sampler/Flow/Gathered.antt =====
-- An epoch of the eBPF program and the sampler: what `EbpfSampler::sample_epoch` of
-- daemon/ebpf_sampler.cpp gathers in all of what daemon/bpf/mem_sampler.bpf.c counts.
use mathlib.Core.Option
use os_research_codebase.Prelude.{
  ℕ, ◌^◌, ◌<◌, ◌≡◌, refl, sym, ◌∙◌, ap, Bool, false, ◌&&◌, if◌then◌else◌, List, [], none, pos,
  arith, length, count, count-le-length,
}
use os_research_codebase.Float.{Float}
use os_research_codebase.OrderedMap.{find}
use os_research_codebase.Sorting.{Distinct}
use os_research_codebase.Sampler.BpfMap.{is_among, BpfMap, Visits, Deletes, total_of}
use os_research_codebase.Sampler.Regions.{VmRegion, is_workload_vma}
use os_research_codebase.Sampler.Program.{Bss, Event, sample_all}
use os_research_codebase.Sampler.Epoch.{drain, get_sample_count}
use os_research_codebase.Sampler.Epoch.Transfer.{drained}
use os_research_codebase.Sampler.Flow.{
  Counts, AlwaysRoom, counted, amount, counted-sample_all, sample_count_of, taken,
}
use os_research_codebase.Sampler.Flow.Keys.{key_sum-ext, share, passes, falls_on_key, key_sum-count}
use os_research_codebase.Sampler.Flow.Sums.{contribution, sample_sum, AllNonneg, drain_sum}

module _ {M : Type 0} (b : BpfMap M) (size : M → ℕ) (counts : Counts b size) (es : List Event)
    (s : Bss M) (keys : List ℕ) where
  -- The map that the program leaves.
  abbrev pub map_after : M
  map_after = (sample_all b es s).page_counts

  -- What the theorems ask of an epoch: the map has room throughout, is empty at first, and gets
  -- fewer than 2^31 samples, all of them before `sample_epoch` runs; the iteration visits each of its keys once.
  pub record Traced : Type 0 where
    pub room : AlwaysRoom b size counts es s
    pub few : length es < 2 ^ 31
    pub fresh : (k : ℕ) → b.lookup s.page_counts k ≡ none
    pub visited : Visits b map_after keys
    pub distinct : Distinct keys
    pub all_visited : (k : ℕ) → is_among k keys ≡ false → b.lookup map_after k ≡ none

  module _ (traced : Traced) where
    counted_after : (k : ℕ) → counted b map_after k ≡ count (falls_on_key b s.target_pid k) es
    counted_after k =
        counted-sample_all b size counts es s k traced.room (omega (arith, none_yet))
        ∙ omega (arith, none_yet, traced.few, count-le-length (falls_on_key b s.target_pid k) es)
      where
        none_yet : counted b s.page_counts k ≡ 0
        none_yet = ap (λ o. amount (Option.map total_of o)) (traced.fresh k)

    unvisited : (k : ℕ) → is_among k keys ≡ false → count (falls_on_key b s.target_pid k) es ≡ 0
    unvisited k a =
        sym (counted_after k) ∙ ap (λ o. amount (Option.map total_of o)) (traced.all_visited k a)

    pub counted_small : (k : ℕ) → counted b map_after k < 2 ^ 31
    counted_small k =
        omega
          (arith, counted_after k, traced.few, count-le-length (falls_on_key b s.target_pid k) es)

    same_share :
        (regions : List VmRegion) (p : ℕ → Bool) (k : ℕ)
        → contribution b regions p map_after k
          ≡ share b (λ j. p j && is_workload_vma regions j) s.target_pid es k
    same_share regions p k = ground (arith, counted_after k)

    module _ (D : Type 0) ⦃f : Float D⦄ (regions : List VmRegion) (deletes : Deletes b) where
      -- What the sampler gathers of the pages that pass a test comes to the samples of the traced
      -- process on pages that pass it and lie in a region.
      pub gathered :
          (p : ℕ → Bool)
          → (sample_sum p (drain b {D = D} regions keys map_after []).1
              ≡ count (passes b (λ k. p k && is_workload_vma regions k) s.target_pid) es)
            × AllNonneg (drain b {D = D} regions keys map_after []).1
      unfolding find
      gathered p =
          let q = λ (k : ℕ). p k && is_workload_vma regions k in
          let (total, nonneg) =
            drain_sum b regions p deletes keys map_after [] traced.distinct (λ k a. refl)
              counted_small tt in
          (
            total
                ∙ omega arith
                ∙ key_sum-ext (contribution b regions p map_after) (share b q s.target_pid es) keys
                    (λ k a. same_share regions p k)
                ∙ key_sum-count b q s.target_pid keys es traced.distinct unvisited,
            nonneg,
          )

      -- The sample of a page counts what fell on it, if it is in a region.
      pub gathered_count :
          (page : ℕ)
          → get_sample_count (drain b {D = D} regions keys map_after []).1 page ≡ (
              if is_workload_vma regions page
              then pos (count (falls_on_key b s.target_pid page) es)
              else pos 0)
      unfolding get_sample_count find
      gathered_count page =
          ap sample_count_of
            (drained b {D = D} regions deletes page keys map_after [] traced.distinct).0
          ∙ taken b size counts D regions page (count (falls_on_key b s.target_pid page) es)
              (is_among page keys) (b.lookup map_after page) (counted_after page)
              (omega (arith, traced.few, count-le-length (falls_on_key b s.target_pid page) es))
              (traced.all_visited page)
