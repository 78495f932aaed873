-- ===== src/Daemon/Main/Counted.antt =====
-- The lines that the main loop of daemon/daemon.cpp prints, on what the eBPF program counts in its
-- rounds and `EbpfSampler::sample_epoch` takes over.
use mathlib.Core.Option
use mathlib.Core.Path.{ap₂}
use mathlib.Core.Option.{some-injective}
use os_research_codebase.Prelude.{
  ◌||◌, ltb_ℤ, ℕ, ◌<◌, ◌≡◌, refl, sym, ◌∙◌, ap, Bool, true, false, if◌then◌else◌, List, [], ◌∷◌,
  map, Option, none, some, ℤ, pos, ◌==ℤ◌, arith, length, Option-cases, inl, inr,
}
use os_research_codebase.Float.{Float}
use os_research_codebase.Config.{Config}
use os_research_codebase.OrderedMap.{OrderedMap}
use os_research_codebase.Page.{PageMetadata, PageSample}
use os_research_codebase.Sorting.{Sorter}
use os_research_codebase.Sampler.BpfMap.{BpfMap, Deletes}
use os_research_codebase.Sampler.Regions.{VmRegion}
use os_research_codebase.Sampler.Program.{Bss, Event, sample_all, sample_all-target_pid}
use os_research_codebase.Sampler.Epoch.{drain}
use os_research_codebase.Sampler.Object.{EbpfSampler, sampled_by_program, sampler_epoch}
use os_research_codebase.Sampler.Object.Epochs.{bss_after, sampler_after, sampler_epoch-eq_some}
use os_research_codebase.Sampler.Flow.{Counts}
use os_research_codebase.Sampler.Flow.Gathered.{Traced}
use os_research_codebase.Policy.Scored.{ScoredPage}
use os_research_codebase.Workload.Info.{Streams, read_workload_info}
use os_research_codebase.Daemon.Epoch.{WorkloadInfo, Surroundings, Cell, int, Loop, epoch_step}
use os_research_codebase.Daemon.Counted.{counts_in, seen, round_counts}
use os_research_codebase.Daemon.Main.{Round, Printed, met, main_loop}

-- A round with the samples that the eBPF program gets before it, and the keys that the iteration
-- over its map visits.
pub record Fed (D S : Type 0) : Type 0 where
  pub round : Round D S
  pub events : List Event
  pub keys : List ℕ

-- The value under `epoch_accesses` alone.
abbrev pub accesses_in : {D : Type 0} → List (Cell D) → List (Cell D)
accesses_in (accesses ∷ hits ∷ []) = accesses ∷ []
accesses_in cells = []

abbrev with_samples : {D S : Type 0} → Round D S → OrderedMap (PageSample D) → Round D S
with_samples r samples = record r { env = record r.env { samples = samples } }

module _ {M D S : Type 0} (b : BpfMap M) ⦃f : Float D⦄ (fuel : ℕ) where
  -- The rounds, each with the samples of the sampler behind its call of `sample_epoch`; `none` if a
  -- call does not return. The program counts the events of a round before the call and none while
  -- it runs: beside the program a sample that is counted behind the lookup of its key and before the
  -- deletion is lost, which is not modelled.
  unfoldable pub sampled_rounds : List (Fed D S) → EbpfSampler M D → Option (List (Round D S))
  sampled_rounds [] s = some []
  sampled_rounds (x ∷ xs) s =
      elim (sampler_epoch b fuel x.round.parse_ms (sampled_by_program b x.events s)) [
        | none ↦ none
        | some s' ↦
            Option.map (λ rounds. with_samples x.round s'.page_samples ∷ rounds)
              (sampled_rounds xs s')
      ]

module _ {M : Type 0} (b : BpfMap M) (size : M → ℕ) (counts : Counts b size) (deletes : Deletes b)
    {D S : Type 0} ⦃f : Float D⦄ (regions : List VmRegion) (fuel : ℕ) where
  -- Every epoch meets a map as `Traced` asks, and the fuel is above the number of its keys.
  abbrev pub AllTraced : List (Fed D S) → Bss M → Type 0
  AllTraced [] s = Unit {0}
  AllTraced (x ∷ xs) s =
      Traced b size counts x.events s x.keys
      × (length x.keys < fuel)
      × AllTraced xs (bss_after b D regions x.keys x.events s)

first_count :
    {D : Type 0} (cells : List (Cell D)) (gone ended : Bool) (accesses hits : ℤ)
    → some (counts_in cells)
      ≡ (if gone then none else if ended then none else some (int accesses ∷ int hits ∷ []))
    → accesses_in (counts_in cells) ≡ int accesses ∷ []
first_count cells true ended accesses hits e = absurd (ground (arith, e))
first_count cells false true accesses hits e = absurd (ground (arith, e))
first_count cells false false accesses hits e = ap accesses_in (some-injective _ _ e)

-- Whether a round ends the loop: the workload is gone, or the phase in its file, or the last one read
-- if the file is not there, is negative.
abbrev ends : Bool → ℤ → Bool
ends gone phase = gone || ltb_ℤ phase (pos 0)

-- The epochs before the first round that ends the loop.
abbrev pub epochs_before_end :
    {D S W : Type 0} → Streams S W → List (Fed D S) → WorkloadInfo → List (Fed D S)
epochs_before_end io [] info = []
epochs_before_end io (x ∷ xs) info =
    let info' = (read_workload_info io x.round.file info).0 in
    let rest = epochs_before_end io xs info' in
    if ends x.round.env.workload_gone info'.current_phase then [] else x ∷ rest

-- The cells under `epoch_accesses` in the summary of a run, and what the program counted in an epoch.
abbrev pub accesses_printed : {D : Type 0} → Printed D → List (List (Cell D))
accesses_printed printed = map (λ line. accesses_in (counts_in line)) printed.summary

abbrev pub accesses_seen : {M D S : Type 0} → BpfMap M → List VmRegion → ℕ → Fed D S → List (Cell D)
accesses_seen b regions target x = int (pos (seen b regions target (λ k. true) x.events)) ∷ []

module _ {M : Type 0} (b : BpfMap M) (size : M → ℕ) (counts : Counts b size) (deletes : Deletes b)
    {D S W : Type 0} (io : Streams S W) ⦃f : Float D⦄ (pages : Sorter (PageMetadata D))
    (scored : Sorter (ScoredPage D)) (cfg : Config) (apart : (cfg.slow_node ==ℤ pos 0) ≡ false)
    (fuel : ℕ) (interval : D) (tracing : Bool) where
  round_accesses :
      (x : Fed D S) (bss : Bss M) (regions : List VmRegion) (loop : Loop D)
      → Traced b size counts x.events bss x.keys
      → (loop' : Loop D) (line : List (Cell D))
      → epoch_step pages scored cfg
          (met io pages scored
            (with_samples x.round
              (drain b {D = D} regions x.keys (sample_all b x.events bss).page_counts []).1)
            loop.info)
          loop
        ≡ some (loop', line)
      → accesses_in (counts_in line) ≡ accesses_seen b regions bss.target_pid x
  round_accesses x bss regions loop traced loop' line e = first_count line _ _ _ _ (
      ap (Option.map (λ r. counts_in r.1)) (sym e)
      ∙ round_counts b size counts deletes pages scored cfg apart regions x.events bss x.keys
          (met io pages scored x.round loop.info) loop traced)

  ended :
      (env : Surroundings D) (loop : Loop D)
      → epoch_step pages scored cfg env loop ≡ none
      → ends env.workload_gone env.read_info.current_phase ≡ true
  unfolding epoch_step
  ended env loop e = ground (arith, e)

  went_on :
      (env : Surroundings D) (loop loop' : Loop D) (line : List (Cell D))
      → epoch_step pages scored cfg env loop ≡ some (loop', line)
      → (ends env.workload_gone env.read_info.current_phase ≡ false) × (loop'.info ≡ env.read_info)
  unfolding epoch_step
  went_on env loop loop' line e = ground (arith, e)

  later_seen :
      (regions : List VmRegion) (bss : Bss M) (x : Fed D S) (xs : List (Fed D S))
      → map (accesses_seen b regions (bss_after b D regions x.keys x.events bss).target_pid) xs
        ≡ map (accesses_seen b regions bss.target_pid) xs
  later_seen regions bss x xs =
      ap (λ target. map (accesses_seen b regions target) xs) (sample_all-target_pid b x.events bss)

  -- Let the program not run while `sample_epoch` does.
  -- Over a map whose operations are as documented and that has room throughout, with fewer than
  -- 2^31 samples in each epoch, iterations that visit each key once, fuel above their number, a
  -- map that is empty at first, and a slow node that is not node 0: every call of
  -- `sample_epoch` returns, and the main loop on the samples gathered prints a line for each
  -- epoch before the first round that finds the workload gone or a negative phase, with, as
  -- `epoch_accesses`, how many samples of the traced process had an address in a region of the
  -- sampler in that epoch.
  pub main_loop-accesses_seen :
      (feeds : List (Fed D S)) (s : EbpfSampler M D) (bss : Bss M) (loop : Loop D)
      → s.skel ≡ some bss
      → AllTraced b size counts deletes s.vma_regions fuel feeds bss
      → (rounds : List (Round D S)) × (sampled_rounds b fuel feeds s ≡ some rounds)
        × (accesses_printed (main_loop io pages scored cfg interval tracing rounds loop).1
            ≡ map
                (accesses_seen b s.vma_regions bss.target_pid)
                (epochs_before_end io feeds loop.info))
  unfolding sampled_rounds main_loop
  main_loop-accesses_seen [] s bss loop k t = ([], refl, refl)
  main_loop-accesses_seen (x ∷ xs) s bss loop k (traced, enough, t) =
      elim (Option-cases (epoch_step pages scored cfg (met io pages scored r loop.info) loop)) [
        | inl e ↦
            let (rounds, sampled, p) = main_loop-accesses_seen xs s' bss' loop refl t in
            (
              r ∷ rounds,
              sampled_first rounds sampled,
              rw (e, main_loop) (rw (ended (met io pages scored r loop.info) loop e) refl),
            )
        | inr ((loop', line), e) ↦
            let (rounds, sampled, p) = main_loop-accesses_seen xs s' bss' loop' refl t in
            let (on, same) = went_on (met io pages scored r loop.info) loop loop' line e in
            (
              r ∷ rounds,
              sampled_first rounds sampled,
              rw (e, main_loop)
                  (rw on (
                    ap₂ (λ a l. a ∷ l) (round_accesses x bss s.vma_regions loop traced loop' line e)
                      (p
                        ∙ later_seen s.vma_regions bss x (epochs_before_end io xs loop'.info)
                        ∙ ap
                            (λ info.
                              map (accesses_seen b s.vma_regions bss.target_pid)
                                (epochs_before_end io xs info))
                            same))),
            )
      ]
    where
      s' : EbpfSampler M D
      s' = sampler_after b x.keys x.events x.round.parse_ms bss s

      bss' : Bss M
      bss' = bss_after b D s.vma_regions x.keys x.events bss

      r : Round D S
      r = with_samples x.round s'.page_samples

      sampled_first :
          (rounds : List (Round D S))
          → sampled_rounds b fuel xs s' ≡ some rounds
          → sampled_rounds b fuel (x ∷ xs) s ≡ some (r ∷ rounds)
      sampled_first rounds e =
          rw
            (
              sampler_epoch-eq_some b x.events bss x.keys fuel x.round.parse_ms s k traced.visited
                  traced.distinct enough,
              sampled_rounds,
            )
            (ap (Option.map (λ others. r ∷ others)) e)
