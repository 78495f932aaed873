-- ===== src/Tests/Counted.antt =====
-- A round on the samples that the eBPF program counted.
use mathlib.Core.Option
use os_research_codebase.Prelude.{refl, [], ◌∷◌, length, arith}
use os_research_codebase.Float.Fixed.{fixed}
use os_research_codebase.OrderedMap.{OrderedMap, find}
use os_research_codebase.Sampler.Program.{sample_all, sample_mem, count_page, page_of}
use os_research_codebase.Sampler.Flow.Gathered.{Traced}
use os_research_codebase.Tests.Flow.{
  tallied, tallied-Counts, at_start, three_events, roomy, visited,
}

pub three_events-Traced : Traced tallied length tallied-Counts three_events at_start (4096 ∷ [])
unfolding sample_all sample_mem count_page page_of find
three_events-Traced = record {
  room = roomy;
  few = omega arith;
  fresh = λ k. refl;
  visited = visited;
  distinct = (tt, tt);
  all_visited = λ k e. ground (arith, e);
}
