-- ===== src/Tests/Whole.antt =====
-- The daemon as a whole on the process 7, with one CPU and one region.
use os_research_codebase.Prelude.{◌≡◌, refl, true, List, [], ◌∷◌, map, none, some, ℤ, pos}
use os_research_codebase.Float.Fixed.{fixed}
use os_research_codebase.Policy.Dispatch.{Policy}
use os_research_codebase.Sampler.Regions.{is_workload_vma, last_starting, MapsLine}
use os_research_codebase.Sampler.Program.{page_of}
use os_research_codebase.Sampler.Object.{PerfCalls}
use os_research_codebase.Workload.Info.{update_shared_info, read_workload_info}
use os_research_codebase.Daemon.Epoch.{int}
use os_research_codebase.Daemon.Main.{Machine}
use os_research_codebase.Daemon.Main.Counted.{epochs_before_end, accesses_seen}
use os_research_codebase.Tests.Generator.{Word, by_line, running}
use os_research_codebase.Tests.Mains.{machine}
use os_research_codebase.Tests.Flow.{Tally, tallied, at_start}
use os_research_codebase.Tests.Recorder.{two_epochs}
use os_research_codebase.Tests.Sampling.{two_regions}

abbrev one_cpu : PerfCalls Tally
one_cpu = record {
  open_and_load = some at_start;
  num_possible_cpus = pos 1;
  perf_event_open = λ attr cpu. some 6;
  attach_perf_event = λ fd. some 1;
}

abbrev one_line : List MapsLine
one_line = record { matched = 7; start = 4096; end = 8392704; perms = "rw-p"; inode = 0 } ∷ []

abbrev host : Machine ℤ (List Word)
host =
    machine true (none ∷ some (by_line.opened (update_shared_info by_line running (pos 1)).1) ∷ [])
      []

-- Both epochs come to a line: two samples in the first, none in the second.
two_lines :
    map
      (accesses_seen {D = ℤ} tallied two_regions 7)
      (epochs_before_end by_line two_epochs (update_shared_info by_line running (pos 1)).0)
    ≡ (int (pos 2) ∷ []) ∷ (int (pos 0) ∷ []) ∷ []
unfolding update_shared_info read_workload_info is_workload_vma last_starting page_of
two_lines = refl
