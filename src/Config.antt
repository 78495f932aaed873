-- ===== src/Config.antt =====
-- The global settings of daemon/daemon.cpp and the constants of workload/workload.h.
use os_research_codebase.Prelude.{ℕ, ℤ, pos}

-- `SLOW_NODE`, `FAST_TIER_CAPACITY` and the two caps, which the command line can set.
pub record Config : Type 0 where
  pub slow_node : ℤ
  pub fast_tier_capacity : ℤ
  pub max_promotions : ℤ
  pub max_demotions : ℤ

abbrev pub default_config : Config
default_config = record {
  slow_node = pos 1;
  fast_tier_capacity = pos 128;
  max_promotions = pos 32;
  max_demotions = pos 32;
}

abbrev pub fast_latency_ns : ℕ
fast_latency_ns = 70

abbrev pub slow_latency_ns : ℕ
slow_latency_ns = 132

abbrev pub slow_write_latency_ns : ℕ
slow_write_latency_ns = 172

abbrev pub cxl_fast_latency_ns : ℕ
cxl_fast_latency_ns = 80

abbrev pub cxl_slow_latency_ns : ℕ
cxl_slow_latency_ns = 400

abbrev pub cxl_slow_write_latency_ns : ℕ
cxl_slow_write_latency_ns = 550

abbrev pub total_pages : ℕ
total_pages = 2048

abbrev pub new_data_pages : ℕ
new_data_pages = 384

abbrev pub hotspot_pages : ℕ
hotspot_pages = 384
