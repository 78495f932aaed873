-- ===== src/Tests/Traces.antt =====
-- The trace tool on caches that keep the last line only.
use os_research_codebase.Prelude.{ℕ, ◌/◌, refl, true, false, ◌==◌, List, [], ◌∷◌}
use os_research_codebase.Memtrace.{CacheOps, Hierarchy, Ins, run_program}
use os_research_codebase.Memtrace.Misses.{SameCaches, run_program-SameCaches}

-- A cache is the number of the line that it holds.
abbrev one_line : CacheOps ℕ
one_line = record {
  access = λ line addr size kind. (addr / 64, line == addr / 64);
  access_single_line = λ line addr kind. (addr / 64, line == addr / 64);
}

abbrev cold_start : ℕ → Hierarchy ℕ
cold_start page = record {
  itlb = page;
  dtlb = page;
  il1 = 0;
  dl1 = 0;
  ul2 = 0;
  ul3 = 0;
  trace = [];
}

abbrev load_from : ℕ → Ins
load_from ea = record {
  inst_ptr = 640;
  predicate = true;
  is_memory_read = true;
  is_memory_write = false;
  is_standard_memop = true;
  read_ea = ea;
  read_size = 8;
  write_ea = 0;
  write_size = 0;
}

abbrev two_loads : List Ins
two_loads = load_from 4096 ∷ load_from 8192 ∷ []

run_program-SameCaches_example :
    SameCaches one_line
      (run_program one_line two_loads (cold_start 0))
      (run_program one_line two_loads (cold_start 7))
run_program-SameCaches_example =
    run_program-SameCaches one_line two_loads (cold_start 0) (cold_start 7)
      (refl, refl, refl, refl, refl)
