-- ===== src/TierManager.antt =====
-- daemon/tier_manager.h: the state of the tier manager, and the system calls that it makes.
-- The methods of daemon/tier_manager.cpp are in the children.
pub mod Accesses
pub mod Nodes
pub mod Migration
pub mod Invariant
pub mod Tidy
use os_research_codebase.Prelude.{ℕ, Bool, List, [], ℤ, pos, ◌==ℤ◌}
use os_research_codebase.Float.{Float}
use os_research_codebase.OrderedMap.{OrderedMap}
use os_research_codebase.Page.{PageMetadata}

-- The members of `TierManager`, less the pid, which only system calls read.
pub record TierManager (D : Type 0) : Type 0 where
  pub total_migrations : ℕ
  pub total_migration_latency_ms : D
  pub epoch_accesses : ℤ
  pub epoch_hits : ℤ
  pub epoch_misplaced_pages : ℕ
  pub epoch_promotions : ℕ
  pub epoch_demotions : ℕ
  pub epoch_density : D
  pub fast_tier_count : ℕ
  pub pages_meta : OrderedMap (PageMetadata D)

-- What a `move_pages` system call leaves behind: its result, and the status vector.
pub record Reply : Type 0 where
  pub ret : ℤ
  pub status : List ℤ

-- The kernel: `query` is `move_pages` without target nodes, on the pages and the status vector as
-- it is before the call; `move` also has the nodes; `latency` is the time measured around a move.
pub record Kernel (D : Type 0) : Type 0 where
  pub query : List ℕ → List ℤ → Reply
  pub move : List ℕ → List ℤ → List ℤ → Reply
  pub latency : List ℕ → D

abbrev pub on_fast : {D : Type 0} → ℕ × PageMetadata D → Bool
on_fast (va, m) = m.current_node ==ℤ pos 0

module _ {D : Type 0} ⦃f : Float D⦄ where
  open f use {of_int}

  unfoldable pub new_manager : TierManager D
  new_manager = record {
    total_migrations = 0;
    total_migration_latency_ms = of_int (pos 0);
    epoch_accesses = pos 0;
    epoch_hits = pos 0;
    epoch_misplaced_pages = 0;
    epoch_promotions = 0;
    epoch_demotions = 0;
    epoch_density = of_int (pos 1);
    fast_tier_count = 0;
    pages_meta = [];
  }
