-- ===== src/Tests/Sampling.antt =====
-- The sampler on a small map and two regions.
use os_research_codebase.Prelude.{
  ℕ, ◌≡◌, ◌==◌, if◌then◌else◌, List, [], ◌∷◌, Option, none, some, arith,
}
use os_research_codebase.Float.Fixed.{fixed}
use os_research_codebase.OrderedMap.{OrderedMap}
use os_research_codebase.Sampler.BpfMap.{BpfMap, key_after, first_key, is_among}
use os_research_codebase.Sampler.Regions.{VmRegion, is_workload_vma}
use os_research_codebase.Sampler.Regions.Lookup.{in_some_region, is_workload_vma-in_some_region}

-- A map as a list of keys and the values of the CPUs, iterated in its order. As in the kernel,
-- the key after one that the map does not hold is its first.
abbrev Counts : Type 0
Counts = List (ℕ × List ℕ)

keys_of : Counts → List ℕ
keys_of [] = []
keys_of ((k, v) ∷ m) = k ∷ keys_of m

next_of : Counts → Option ℕ → Option ℕ
unfolding keys_of
next_of m none = first_key (keys_of m)
next_of m (some k) =
    if is_among k (keys_of m) then key_after k (keys_of m) else first_key (keys_of m)

look_up : Counts → ℕ → Option (List ℕ)
look_up [] k = none
look_up ((j, v) ∷ m) k = if k == j then some v else look_up m k

remove : Counts → ℕ → Counts
remove [] k = []
remove ((j, v) ∷ m) k = if k == j then remove m k else (j, v) ∷ remove m k

abbrev listed : BpfMap Counts
listed = record {
  next_key = next_of;
  lookup = look_up;
  delete = remove;
  add_one = λ m k cpu. m;
  create = λ m k cpu. (k, 1 ∷ []) ∷ m;
}

abbrev two_counts : Counts
two_counts = (4096, 2 ∷ 3 ∷ []) ∷ (8192, 1 ∷ []) ∷ []

abbrev pub two_regions : List VmRegion
two_regions =
    record { va_start = 4096; va_end = 8192 } ∷ record { va_start = 12288; va_end = 16384 } ∷ []

is_workload_vma-in_some_region_example :
    is_workload_vma two_regions 13000 ≡ in_some_region two_regions 13000
is_workload_vma-in_some_region_example =
    is_workload_vma-in_some_region two_regions 13000 (omega arith)
