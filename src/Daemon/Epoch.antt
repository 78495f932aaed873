-- ===== src/Daemon/Epoch.antt =====
-- One round of the main loop of daemon/daemon.cpp, and the line of the summary that it prints.
use os_research_codebase.Prelude.{
  ℕ, suc, Bool, if◌then◌else◌, List, [], ◌∷◌, Option, none, some, ℤ, pos, ltb_ℤ, ◌+ℤ◌, ◌-ℤ◌, ◌*ℤ◌,
  length,
}
use Prim.Native.String.{String}
use os_research_codebase.Float.{Float}
use os_research_codebase.Config.{
  Config, fast_latency_ns, slow_latency_ns, slow_write_latency_ns, cxl_fast_latency_ns,
  cxl_slow_latency_ns, cxl_slow_write_latency_ns,
}
use os_research_codebase.Page.{PageMetadata, PageSample}
use os_research_codebase.Sorting.{Sorter}
use os_research_codebase.TierManager.{TierManager, Kernel}
use os_research_codebase.TierManager.Accesses.{detect_accesses}
use os_research_codebase.TierManager.Nodes.{update_page_nodes, calculate_misplaced_pages}
use os_research_codebase.Policy.Scored.{ScoredPage}
use os_research_codebase.Policy.Dispatch.{Policy, execute}

-- workload/workload.h: what the workload publishes.
pub record WorkloadInfo : Type 0 where
  pub pid : ℤ
  pub base_address : ℕ
  pub total_pages : ℤ
  pub current_phase : ℤ

-- What the surroundings give in a round: whether `kill(pid, 0)` says that the workload is gone, the
-- `info` that `read_workload_info` leaves behind, the time, the epoch's samples, the kernel's
-- replies before, during and after the policy's run, and the values drawn at random.
pub record Surroundings (D : Type 0) : Type 0 where
  pub workload_gone : Bool
  pub read_info : WorkloadInfo
  pub now : ℤ
  pub samples : List (ℕ × PageSample D)
  pub kernel_before : Kernel D
  pub kernel : Kernel D
  pub kernel_after : Kernel D
  pub draw : ℕ → ℕ → ℕ
  pub epoch_ms : D

-- The variables of `main` that a round changes.
pub record Loop (D : Type 0) : Type 0 where
  pub epoch : ℕ
  pub info : WorkloadInfo
  pub last_phase : ℤ
  pub mgr : TierManager D
  pub policy : Policy D

-- A value in a line of the summary.
pub data Cell (D : Type 0) : Type 0 where
  int : ℤ → Cell D
  real : D → Cell D

abbrev pub summary_header : List String
summary_header =
    "epoch" ∷ "phase" ∷ "epoch_accesses" ∷ "epoch_hits" ∷ "page_hit_rate" ∷ "fast_tier_pages"
    ∷ "tracked_pages" ∷ "total_migrations" ∷ "epoch_promotions" ∷ "epoch_demotions"
    ∷ "migration_cost_ms" ∷ "estimated_latency_ns" ∷ "cxl_estimated_latency_ns" ∷ "misplaced_pages"
    ∷ []

module _ {D : Type 0} ⦃f : Float D⦄ where
  open f use {of_int, decimal, sub, mul, div, to_int}

  unfoldable pub page_hit_rate : TierManager D → D
  page_hit_rate mgr =
      if ltb_ℤ (pos 0) mgr.epoch_accesses
      then div (of_int mgr.epoch_hits) (of_int mgr.epoch_accesses)
      else decimal 0 1

  unfoldable pub slow_accesses : TierManager D → ℤ
  slow_accesses mgr = mgr.epoch_accesses -ℤ mgr.epoch_hits

  -- The share of the slow accesses that `WRITE_RATIO` leaves for reads, truncated.
  unfoldable pub slow_reads : TierManager D → ℤ
  unfolding slow_accesses
  slow_reads mgr = to_int (mul (of_int (slow_accesses mgr)) (sub (decimal 10 1) (decimal 30 2)))

  unfoldable pub slow_writes : TierManager D → ℤ
  unfolding slow_accesses slow_reads
  slow_writes mgr = slow_accesses mgr -ℤ slow_reads mgr

  -- The estimate of both latency models.
  unfoldable pub latency_by : ℕ → ℕ → ℕ → TierManager D → ℤ
  unfolding slow_reads slow_writes
  latency_by fast slow slow_write mgr =
      mgr.epoch_hits *ℤ pos fast +ℤ slow_reads mgr *ℤ pos slow +ℤ slow_writes mgr *ℤ pos slow_write

  unfoldable pub est_latency_ns : TierManager D → ℤ
  unfolding latency_by
  est_latency_ns = latency_by fast_latency_ns slow_latency_ns slow_write_latency_ns

  unfoldable pub cxl_latency_ns : TierManager D → ℤ
  unfolding latency_by
  cxl_latency_ns = latency_by cxl_fast_latency_ns cxl_slow_latency_ns cxl_slow_write_latency_ns

  -- The values that the loop prints, in order: the metrics are taken before the policy runs, in
  -- `sensed`, the rest after it, in `last`.
  unfoldable pub summary_line : ℕ → WorkloadInfo → D → TierManager D → TierManager D → List (Cell D)
  summary_line epoch info epoch_ms sensed last =
      Cell.int (pos epoch)
      ∷ Cell.int info.current_phase
      ∷ Cell.int last.epoch_accesses
      ∷ Cell.int last.epoch_hits
      ∷ Cell.real (page_hit_rate sensed)
      ∷ Cell.int (pos last.fast_tier_count)
      ∷ Cell.int (pos (length last.pages_meta))
      ∷ Cell.int (pos last.total_migrations)
      ∷ Cell.int (pos last.epoch_promotions)
      ∷ Cell.int (pos last.epoch_demotions)
      ∷ Cell.real last.total_migration_latency_ms
      ∷ Cell.int (est_latency_ns sensed)
      ∷ Cell.int (cxl_latency_ns sensed)
      ∷ Cell.int (pos last.epoch_misplaced_pages)
      ∷ Cell.real epoch_ms
      ∷ []

  module _ (pages : Sorter (PageMetadata D)) (scored : Sorter (ScoredPage D)) (cfg : Config) where
    -- The first part of a round: the counters of the epoch are reset, the samples taken over and
    -- the nodes queried.
    unfoldable pub sense : Surroundings D → TierManager D → TierManager D
    sense env mgr = update_page_nodes env.kernel_before (
        detect_accesses cfg env.now env.samples
          (record mgr { epoch_promotions = 0; epoch_demotions = 0 }))

    -- The round: the state behind it and the line it prints; `none` if the loop ends.
    unfoldable pub epoch_step : Surroundings D → Loop D → Option (Loop D × List (Cell D))
    unfolding sense
    epoch_step env loop =
        let info = env.read_info in
        let sensed = sense env loop.mgr in
        let (policy, placed) = execute pages scored env.draw cfg env.kernel loop.policy sensed in
        let last = calculate_misplaced_pages (update_page_nodes env.kernel_after placed) in
        if env.workload_gone
        then none
        else if ltb_ℤ info.current_phase (pos 0)
        then none
        else some (
          record loop {
            epoch = suc loop.epoch;
            info = info;
            last_phase = info.current_phase;
            mgr = last;
            policy = policy;
          },
          summary_line loop.epoch info env.epoch_ms sensed last,
        )
