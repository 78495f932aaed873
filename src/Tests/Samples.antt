-- ===== src/Tests/Samples.antt =====
-- Pages, kernels and managers for the tests, over fixed-point numbers.
use os_research_codebase.Prelude.{ℕ, Bool, true, false, List, [], ◌∷◌, ℤ, pos, negsuc}
use os_research_codebase.Config.{Config}
use os_research_codebase.Page.{PageMetadata, PageSample}
use os_research_codebase.Sorting.{Sorter, insertion_sorter}
use os_research_codebase.Policy.Scored.{ScoredPage}
use os_research_codebase.Daemon.Epoch.{Surroundings, WorkloadInfo}
use os_research_codebase.TierManager.{TierManager, Kernel}

-- A page with the values that the policies read.
abbrev pub page : ℕ → ℤ → Bool → ℤ → ℤ → ℤ → PageMetadata ℤ
page va node accessed time count frequency = record {
  page_va = va;
  current_node = node;
  last_access_time = time;
  access_count = count;
  smooth_frequency = frequency;
  migration_history = 0;
  accessed_this_epoch = accessed;
  prev_smooth_frequency = pos 0;
  momentum = pos 0;
  epochs_since_access = 0;
  consecutive_hot_epochs = 0;
  hot_ratio = pos 0;
  access_frequency_ratio = pos 0;
  avg_latency_cycles = pos 0;
  aci = pos 0;
}

-- A cold page on the fast node and two hot ones on the slow node.
abbrev pub cold_page : PageMetadata ℤ
cold_page = page 4096 (pos 0) false (pos 1) (pos 3) (pos 0)

abbrev pub hot_page : PageMetadata ℤ
hot_page = page 8192 (pos 1) true (pos 7) (pos 9) (pos 5000000)

abbrev pub warm_page : PageMetadata ℤ
warm_page = page 12288 (pos 1) true (pos 7) (pos 4) (pos 2000000)

abbrev pub busy : TierManager ℤ
busy = record {
  total_migrations = 0;
  total_migration_latency_ms = pos 0;
  epoch_accesses = pos 0;
  epoch_hits = pos 0;
  epoch_misplaced_pages = 0;
  epoch_promotions = 0;
  epoch_demotions = 0;
  epoch_density = pos 1000000;
  fast_tier_count = 1;
  pages_meta = (4096, cold_page) ∷ (8192, hot_page) ∷ (12288, warm_page) ∷ [];
}

-- Room for one page in the fast tier.
abbrev pub small : Config
small = record {
  slow_node = pos 1;
  fast_tier_capacity = pos 1;
  max_promotions = pos 32;
  max_demotions = pos 32;
}

-- A kernel that moves every page and finds every page on the fast node.
abbrev pub willing : Kernel ℤ
willing = record {
  query = λ addrs status. record { ret = pos 0; status = status };
  move = λ addrs nodes status. record { ret = pos 0; status = nodes };
  latency = λ addrs. pos 1000;
}

-- A kernel whose calls fail and write no status.
abbrev pub refusing : Kernel ℤ
refusing = record {
  query = λ addrs status. record { ret = negsuc 0; status = status };
  move = λ addrs nodes status. record { ret = negsuc 0; status = status };
  latency = λ addrs. pos 1000;
}

abbrev pub sample_of : ℕ → PageSample ℤ
sample_of n = record { sample_count = pos n; total_latency_cycles = pos 0 }

-- Samples of a fast page and of one that is not tracked.
abbrev pub some_samples : List (ℕ × PageSample ℤ)
some_samples = (4096, sample_of 5) ∷ (16384, sample_of 2) ∷ []

abbrev pub first_drawn : ℕ → ℕ → ℕ
first_drawn i last = 0

abbrev pub by_page : Sorter (PageMetadata ℤ)
by_page = insertion_sorter (PageMetadata ℤ)

abbrev pub by_score : Sorter (ScoredPage ℤ)
by_score = insertion_sorter (ScoredPage ℤ)

abbrev pub quiet_info : WorkloadInfo
quiet_info = record { pid = pos 7; base_address = 4096; total_pages = pos 3; current_phase = pos 1 }

-- The samples are of a fast page and of a new one.
abbrev pub around : Surroundings ℤ
around = record {
  workload_gone = false;
  read_info = quiet_info;
  now = pos 9;
  samples = some_samples;
  kernel_before = willing;
  kernel = willing;
  kernel_after = willing;
  draw = first_drawn;
  epoch_ms = pos 0;
}
