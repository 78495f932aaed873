-- ===== src/System/Traced.antt =====
-- The daemon as a whole on a traced process: from the pid on its command line to the lines of its
-- summary.
use Prim.Native.String.{String}
use os_research_codebase.Prelude.{ℕ, ◌≡◌, Bool, true, List, ◌∷◌, ◌++◌, Option, some, ℤ, pos_part}
use os_research_codebase.Float.{Float}
use os_research_codebase.Page.{PageMetadata}
use os_research_codebase.Sorting.{Sorter}
use os_research_codebase.Sampler.BpfMap.{BpfMap, Deletes}
use os_research_codebase.Sampler.Regions.{VmRegion, MapsLine}
use os_research_codebase.Sampler.Flow.{Counts}
use os_research_codebase.Sampler.Object.{
  EbpfSampler, PerfCalls, new_sampler, sampler_discover, sampler_start, cpu_replies,
}
use os_research_codebase.Policy.Scored.{ScoredPage}
use os_research_codebase.Policy.Dispatch.{Policy}
use os_research_codebase.Workload.Info.{Streams, update_shared_info}
use os_research_codebase.Daemon.Options.{Readers, Options}
use os_research_codebase.Daemon.Epoch.{WorkloadInfo}
use os_research_codebase.Daemon.Main.{Machine}
use os_research_codebase.Daemon.Main.Ends.{missing}

module _ (M D : Type 0) ⦃f : Float D⦄ (vmas : Sorter VmRegion) (lines : List MapsLine)
    (pid : ℤ) where
  -- The sampler of `main` behind `discover_workload_regions`, and behind `start_recording`.
  abbrev pub discovered : EbpfSampler M D × Bool
  discovered = sampler_discover vmas (some lines) (new_sampler pid)

  module _ (calls : PerfCalls M) where
    abbrev pub recorder : EbpfSampler M D × Bool
    recorder = sampler_start calls discovered.0

module _ {M : Type 0} (b : BpfMap M) (size : M → ℕ) (counts : Counts b size) (deletes : Deletes b)
    {D S W : Type 0} (io : Streams S W) ⦃f : Float D⦄ (pages : Sorter (PageMetadata D))
    (scored : Sorter (ScoredPage D)) (readers : Readers D) (vmas : Sorter VmRegion)
    (calls : PerfCalls M) (m : Machine D S) where
  -- What the machine gives to a daemon that records: the user is root, the file appears after
  -- polls in vain, and the maps and the recorder's calls reply as `lines` and `calls` say.
  pub record Hosts (lines : List MapsLine) (info : WorkloadInfo) (phase : ℤ) : Type 0 where
    pub root : m.is_root ≡ true
    pub early : List (Option S)
    pub more : List (Option S)
    pub polls :
        m.polls ≡ missing early ++ some (io.opened (update_shared_info io info phase).1) ∷ more
    pub maps : m.maps ≡ some lines
    pub loaded : m.loaded ≡ true
    pub cpus : m.cpus ≡ cpu_replies calls 0 (pos_part calls.num_possible_cpus)
