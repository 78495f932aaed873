-- ===== src/Tests/Flow.antt =====
-- The eBPF program and the sampler on a map with one counter for each key.
use mathlib.Core.Option
use os_research_codebase.Prelude.{
  ℕ, ◌+◌, ◌%◌, ◌^◌, ◌≡◌, refl, ◌==◌, if◌then◌else◌, List, [], ◌∷◌, Option, none, some, length,
  arith, ap,
}
use os_research_codebase.Float.Fixed.{fixed}
use os_research_codebase.OrderedMap.{find}
use os_research_codebase.Sampler.BpfMap.{
  BpfMap, Visits, Deletes, key_after, first_key, is_among, total_of,
}
use os_research_codebase.Sampler.Program.{Bss, Event, sample_mem, sample_all, count_page, page_of}
use os_research_codebase.Sampler.Flow.{Counts, AlwaysRoom}

abbrev pub Tally : Type 0
Tally = List (ℕ × ℕ)

abbrev keys_in : Tally → List ℕ
keys_in [] = []
keys_in ((k, t) ∷ m) = k ∷ keys_in m

abbrev without : Tally → ℕ → Tally
without [] k = []
without ((j, t) ∷ m) k = if k == j then without m k else (j, t) ∷ without m k

abbrev bump : Tally → ℕ → Tally
bump [] k = []
bump ((j, t) ∷ m) k = if k == j then (j, (t + 1) % 2 ^ 64) ∷ bump m k else (j, t) ∷ bump m k

abbrev after : Tally → Option ℕ → Option ℕ
after m none = first_key (keys_in m)
after m (some k) = if is_among k (keys_in m) then key_after k (keys_in m) else first_key (keys_in m)

abbrev pub tallied : BpfMap Tally
tallied = record {
  next_key = after;
  lookup = λ m k. Option.map (λ t. t ∷ []) (find k m);
  delete = without;
  add_one = λ m k cpu. bump m k;
  create = λ m k cpu. (k, 1) ∷ m;
}

find-without : (m : Tally) (k j : ℕ) → find k (without m j) ≡ (if k == j then none else find k m)
unfolding find
find-without [] k j = ground arith
find-without ((i, t) ∷ m) k j = ground (arith, find-without m k j)

pub tallied-Deletes : Deletes tallied
tallied-Deletes = record { lookup-delete = λ m k j. ground (arith, find-without m k j) }

find-bump :
    (m : Tally) (k j : ℕ)
    → find k (bump m j)
      ≡ (if k == j then Option.map (λ t. (t + 1) % 2 ^ 64) (find k m) else find k m)
unfolding find
find-bump [] k j = ground arith
find-bump ((i, t) ∷ m) k j = ground (arith, find-bump m k j)

bumped :
    (o : Option ℕ)
    → Option.map total_of (Option.map (λ t. t ∷ []) (Option.map (λ t. (t + 1) % 2 ^ 64) o))
      ≡ Option.map (λ t. (t + 1) % 2 ^ 64) (Option.map total_of (Option.map (λ t. t ∷ []) o))
bumped none = refl
bumped (some t) = ap some (omega arith)

pub tallied-Counts : Counts tallied length
unfolding find
tallied-Counts = record {
  totals-create = λ m k j cpu e room. ground arith;
  totals-add_one = λ m k j cpu. ground (arith, find-bump m k j, bumped (find k m));
}

abbrev pub at_start : Bss Tally
at_start = record {
  page_counts = [];
  target_pid = 7;
  debug_total_hw_samples = 0;
  debug_pid_matches = 0;
  debug_addr_valid = 0;
}

-- Two samples of one page by the traced process, and one by another.
abbrev pub three_events : List Event
three_events =
    record { pid_tgid = 30064771072; addr = 5000; cpu = 0 }
    ∷ record { pid_tgid = 34359738368; addr = 5000; cpu = 0 }
    ∷ record { pid_tgid = 30064771072; addr = 6000; cpu = 1 }
    ∷ []

pub roomy : AlwaysRoom tallied length tallied-Counts three_events at_start
unfolding sample_mem count_page page_of find
roomy = (omega arith, (omega arith, (omega arith, tt)))

pub visited : Visits tallied (sample_all tallied three_events at_start).page_counts (4096 ∷ [])
unfolding sample_all sample_mem count_page page_of find
visited = record { first = refl; next = λ k e. rw e refl }
