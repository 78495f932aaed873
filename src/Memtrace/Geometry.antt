-- ===== src/Memtrace/Geometry.antt =====
-- The shapes of the caches of simulator/traces/memtrace.cpp.
use os_research_codebase.Prelude.{ℕ, ◌*◌, ◌/◌, ◌≡◌, refl, Bool, true, false, [], ◌∷◌, All}

-- `store_allocate` is whether a store that misses brings the line in.
pub record Geometry : Type 0 where
  pub cache_size : ℕ
  pub line_size : ℕ
  pub associativity : ℕ
  pub store_allocate : Bool

-- `max_sets`
abbrev pub max_sets : Geometry → ℕ
max_sets g = g.cache_size / (g.line_size * g.associativity)

-- The instruction TLB: 4 kB pages, 32 entries.
abbrev pub itlb_geometry : Geometry
itlb_geometry = record {
  cache_size = 131072;
  line_size = 4096;
  associativity = 32;
  store_allocate = true;
}

-- The data TLB: 4 kB pages, 32 entries.
abbrev pub dtlb_geometry : Geometry
dtlb_geometry = record {
  cache_size = 131072;
  line_size = 4096;
  associativity = 32;
  store_allocate = true;
}

-- The first level instruction cache: 32 kB.
abbrev pub il1_geometry : Geometry
il1_geometry = record {
  cache_size = 32768;
  line_size = 32;
  associativity = 32;
  store_allocate = false;
}

-- The first level data cache: 32 kB.
abbrev pub dl1_geometry : Geometry
dl1_geometry = record {
  cache_size = 32768;
  line_size = 32;
  associativity = 32;
  store_allocate = false;
}

-- The second level cache: 2 MB, direct mapped.
abbrev pub ul2_geometry : Geometry
ul2_geometry = record {
  cache_size = 2097152;
  line_size = 64;
  associativity = 1;
  store_allocate = true;
}

-- The third level cache: 16 MB, direct mapped.
abbrev pub ul3_geometry : Geometry
ul3_geometry = record {
  cache_size = 16777216;
  line_size = 64;
  associativity = 1;
  store_allocate = true;
}

-- The sets, lines and bytes of each cache make up its size.
exact_sizes :
    All
      (λ g. max_sets g * g.associativity * g.line_size ≡ g.cache_size)
      (itlb_geometry ∷ dtlb_geometry ∷ il1_geometry ∷ dl1_geometry ∷ ul2_geometry ∷ ul3_geometry
        ∷ [])
exact_sizes = (refl, (refl, (refl, (refl, (refl, (refl, tt))))))
