-- ===== src/Daemon/Counted.antt =====
-- From the samples of the eBPF program of daemon/bpf/mem_sampler.bpf.c, through
-- `EbpfSampler::sample_epoch`, to the line that the main loop of daemon/daemon.cpp prints.
use mathlib.Core.Option
use mathlib.Core.Path.{ap₂}
use os_research_codebase.Prelude.{
  ℕ, ◌≡◌, refl, ◌∙◌, ap, Bool, true, false, ◌&&◌, if◌then◌else◌, List, [], ◌∷◌, none, some, ℤ, pos,
  ◌==ℤ◌, ltb_ℤ, arith, count,
}
use os_research_codebase.Float.{Float}
use os_research_codebase.Config.{Config}
use os_research_codebase.OrderedMap.{OrderedMap, find}
use os_research_codebase.Page.{PageMetadata, PageSample}
use os_research_codebase.Sorting.{Sorter}
use os_research_codebase.Sampler.BpfMap.{BpfMap, Deletes}
use os_research_codebase.Sampler.Regions.{VmRegion, is_workload_vma}
use os_research_codebase.Sampler.Program.{Bss, Event, sample_all}
use os_research_codebase.Sampler.Epoch.{drain}
use os_research_codebase.Sampler.Flow.{Counts}
use os_research_codebase.Sampler.Flow.Keys.{passes}
use os_research_codebase.Sampler.Flow.Gathered.{Traced, gathered}
use os_research_codebase.Sampler.Flow.Sums.{sum_where-eq-sample_sum}
use os_research_codebase.TierManager.{TierManager}
use os_research_codebase.TierManager.Accesses.{detect_accesses}
use os_research_codebase.TierManager.Accesses.Hits.{sum_where}
use os_research_codebase.TierManager.Accesses.Epoch.{detect_accesses-sums}
use os_research_codebase.TierManager.Migration.Counts.{is_on_fast}
use os_research_codebase.TierManager.Nodes.{update_page_nodes, calculate_misplaced_pages}
use os_research_codebase.Policy.Scored.{ScoredPage}
use os_research_codebase.Policy.Dispatch.{execute}
use os_research_codebase.Daemon.Epoch.{
  Cell, int, Surroundings, Loop, summary_line, sense, epoch_step,
}
use os_research_codebase.Daemon.Metrics.{
  metrics, update_page_nodes-metrics, calculate_misplaced_pages-metrics, execute-metrics,
}

-- The values under `epoch_accesses` and `epoch_hits` in a line of the summary.
abbrev pub counts_in : {D : Type 0} → List (Cell D) → List (Cell D)
counts_in (epoch ∷ phase ∷ accesses ∷ hits ∷ rest) = accesses ∷ hits ∷ []
counts_in cells = []

abbrev printed : {D : Type 0} → ℤ × ℤ → List (Cell D)
printed (accesses, hits) = int accesses ∷ int hits ∷ []

either_end :
    {A B : Type 0} (h : A → B) (x : A) (gone ended : Bool) (y : B)
    → h x ≡ y
    → Option.map h (if gone then none else if ended then none else some x)
      ≡ (if gone then none else if ended then none else some y)
either_end h x true ended y e = refl
either_end h x false true y e = refl
either_end h x false false y e = ap some e

module _ {D : Type 0} ⦃f : Float D⦄ (pages : Sorter (PageMetadata D))
    (scored : Sorter (ScoredPage D)) (cfg : Config) where
  -- A round prints the counts that the sampling left.
  epoch_step-metrics :
      (env : Surroundings D) (loop : Loop D)
      → Option.map (λ r. counts_in r.1) (epoch_step pages scored cfg env loop) ≡ (
          if env.workload_gone
          then none
          else if ltb_ℤ env.read_info.current_phase (pos 0)
          then none
          else some (
              printed (
                metrics (
                  detect_accesses cfg env.now env.samples
                    (record loop.mgr { epoch_promotions = 0; epoch_demotions = 0 })))))
  unfolding epoch_step sense summary_line
  epoch_step-metrics env loop =
      either_end (λ r. counts_in r.1) _ env.workload_gone
        (ltb_ℤ env.read_info.current_phase (pos 0)) _ (ap printed last_metrics)
    where
      reset : TierManager D
      reset = record loop.mgr { epoch_promotions = 0; epoch_demotions = 0 }

      sensed : TierManager D
      sensed = update_page_nodes env.kernel_before (detect_accesses cfg env.now env.samples reset)

      placed : TierManager D
      placed = (execute pages scored env.draw cfg env.kernel loop.policy sensed).1

      last_metrics :
          metrics (calculate_misplaced_pages (update_page_nodes env.kernel_after placed))
          ≡ metrics (detect_accesses cfg env.now env.samples reset)
      last_metrics =
          calculate_misplaced_pages-metrics (update_page_nodes env.kernel_after placed)
          ∙ update_page_nodes-metrics env.kernel_after placed
          ∙ execute-metrics cfg env.kernel sensed pages scored env.draw loop.policy
          ∙ update_page_nodes-metrics env.kernel_before
              (detect_accesses cfg env.now env.samples reset)

-- How many samples of the traced process fall on pages that pass a test and lie in a region.
abbrev pub seen : {M : Type 0} → BpfMap M → List VmRegion → ℕ → (ℕ → Bool) → List Event → ℕ
seen b regions target p = count (passes b (λ k. p k && is_workload_vma regions k) target)

module _ {M : Type 0} (b : BpfMap M) (size : M → ℕ) (counts : Counts b size) (deletes : Deletes b)
    {D : Type 0} ⦃f : Float D⦄ (pages : Sorter (PageMetadata D)) (scored : Sorter (ScoredPage D))
    (cfg : Config) (apart : (cfg.slow_node ==ℤ pos 0) ≡ false) (regions : List VmRegion) where
  -- What a round prints that takes over the epoch's samples.
  pub round_counts :
      (es : List Event) (s : Bss M) (keys : List ℕ) (env : Surroundings D) (loop : Loop D)
      → Traced b size counts es s keys
      → Option.map
          (λ r. counts_in r.1)
          (epoch_step pages scored cfg
            (record env {
              samples = (drain b {D = D} regions keys (sample_all b es s).page_counts []).1;
            })
            loop)
        ≡ (if env.workload_gone
            then none
            else if ltb_ℤ env.read_info.current_phase (pos 0)
            then none
            else some (
                int (pos (seen b regions s.target_pid (λ k. true) es))
                ∷ int (
                    pos (
                      seen b regions s.target_pid
                        (λ k. is_on_fast (find k loop.mgr.pages_meta))
                        es))
                ∷ []))
  round_counts es s keys env loop traced =
      epoch_step-metrics pages scored cfg (record env { samples = samples }) loop
      ∙ ap
          (λ x.
            if env.workload_gone
            then none
            else if ltb_ℤ env.read_info.current_phase (pos 0)
            then none
            else some (printed x))
          (ap₂ (λ a h. (a, h)) accesses hits)
    where
      samples : OrderedMap (PageSample D)
      samples = (drain b {D = D} regions keys (sample_all b es s).page_counts []).1

      reset : TierManager D
      reset = record loop.mgr { epoch_promotions = 0; epoch_demotions = 0 }

      sums : (p : ℕ → Bool) → sum_where p (pos 0) samples ≡ pos (seen b regions s.target_pid p es)
      sums p =
          let (total, nonneg) = gathered b size counts es s keys traced D regions deletes p in
          sum_where-eq-sample_sum p 0 samples nonneg ∙ ap pos (omega (arith, total))

      accesses :
          (detect_accesses cfg env.now samples reset).epoch_accesses
          ≡ pos (seen b regions s.target_pid (λ k. true) es)
      accesses = (detect_accesses-sums cfg env.now samples reset apart).0 ∙ sums (λ k. true)

      hits :
          (detect_accesses cfg env.now samples reset).epoch_hits
          ≡ pos (seen b regions s.target_pid (λ k. is_on_fast (find k loop.mgr.pages_meta)) es)
      hits =
          (detect_accesses-sums cfg env.now samples reset apart).1
          ∙ sums (λ k. is_on_fast (find k loop.mgr.pages_meta))
