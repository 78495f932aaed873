-- ===== src/Daemon/Main.antt =====
-- `main` of daemon/daemon.cpp: the checks at the start, the wait for the workload, and the loop.
pub mod Rounds
pub mod Stops
pub mod Ends
pub mod Capacity
pub mod Counted
use Prim.Native.String.{String}
use os_research_codebase.Prelude.{
  ℕ, Bool, true, false, ◌&&◌, if◌then◌else◌, List, [], ◌∷◌, ◌++◌, Option, none, some, ℤ, pos,
  negsuc, leb_ℤ,
}
use os_research_codebase.Float.{Float}
use os_research_codebase.Config.{Config}
use os_research_codebase.Page.{PageMetadata}
use os_research_codebase.Sorting.{Sorter}
use os_research_codebase.TierManager.{TierManager, new_manager}
use os_research_codebase.Policy.Scored.{ScoredPage}
use os_research_codebase.Policy.Dispatch.{Policy}
use os_research_codebase.Sampler.Regions.{VmRegion, MapsLine, discover_workload_regions}
use os_research_codebase.Sampler.Recording.{CpuReply, nothing_open, start_recording}
use os_research_codebase.Workload.Info.{Streams, read_workload_info}
use os_research_codebase.Daemon.Options.{
  Readers, Options, Start, usage, uncaught, unknown_policy, ready, start,
}
use os_research_codebase.Daemon.Epoch.{WorkloadInfo, Surroundings, Loop, Cell, sense, epoch_step}
use os_research_codebase.Daemon.Trace.{TraceCell, trace_lines}

-- What a round meets: the workload's file, if it opens, how long the sampling took, and the rest.
pub record Round (D S : Type 0) : Type 0 where
  pub file : Option S
  pub parse_ms : D
  pub env : Surroundings D

-- The lines of the summary and of the trace, below their headers, and how long each round slept at
-- its end, in microseconds, `none` if there was the warning instead.
pub record Printed (D : Type 0) : Type 0 where
  pub summary : List (List (Cell D))
  pub trace : List (List (TraceCell D))
  pub pauses : List (Option ℤ)

abbrev pub nothing_printed : {D : Type 0} → Printed D
nothing_printed = record { summary = []; trace = []; pauses = [] }

-- What the process meets: the content of the uninitialised `info`, the user, the file at each poll
-- for the workload, the maps of the workload, the replies to the recorder's calls, whether the trace
-- file opens, and the rounds that begin before a signal clears `keep_running`.
pub record Machine (D S : Type 0) : Type 0 where
  pub uninitialised : WorkloadInfo
  pub is_root : Bool
  pub polls : List (Option S)
  pub maps : Option (List MapsLine)
  pub loaded : Bool
  pub cpus : List CpuReply
  pub trace_opens : Bool
  pub rounds : List (Round D S)

-- How the process ends: by an exception that nothing catches, or with a code, what it printed and
-- what it wrote to /proc/sys/kernel/numa_balancing.
pub data Outcome (D : Type 0) : Type 0 where
  aborted : Outcome D
  exits : ℕ → Printed D → List Bool → Outcome D

module _ {S W : Type 0} (io : Streams S W) where
  -- The loop that waits for the workload; `none` if a signal ends it.
  unfoldable pub wait_for_workload : List (Option S) → WorkloadInfo → Option WorkloadInfo
  wait_for_workload [] info = none
  wait_for_workload (file ∷ polls) info =
      let (info', valid) = read_workload_info io file info in
      let later = wait_for_workload polls info' in
      if valid && leb_ℤ (pos 0) info'.current_phase then some info' else later

  module _ {D : Type 0} ⦃f : Float D⦄ (pages : Sorter (PageMetadata D))
      (scored : Sorter (ScoredPage D)) where
    -- A round's surroundings, with `info` as `read_workload_info` leaves it.
    abbrev pub met : Round D S → WorkloadInfo → Surroundings D
    met r info = record r.env { read_info = (read_workload_info io r.file info).0 }

    -- The trace is written after the nodes are queried for the first time.
    unfoldable pub trace_round : Config → Bool → Round D S → Loop D → List (List (TraceCell D))
    trace_round cfg tracing r loop =
        let env = met r loop.info in
        let sensed = sense pages scored cfg env loop.mgr in
        if tracing
        then trace_lines loop.epoch env.read_info.current_phase sensed.epoch_density r.parse_ms
            sensed.pages_meta
        else []

    -- The end of a round: the argument of `usleep`, unless there is the warning.
    unfoldable pub pause : D → D → Option ℤ
    pause epoch_interval_ms epoch_ms =
        if f.lt epoch_ms epoch_interval_ms
        then some (f.to_int (f.mul (f.sub epoch_interval_ms epoch_ms) (f.of_int (pos 1000))))
        else none

    unfoldable pub main_loop : Config → D → Bool → List (Round D S) → Loop D → Loop D × Printed D
    unfolding trace_round pause
    main_loop cfg interval tracing [] loop = (loop, nothing_printed)
    main_loop cfg interval tracing (r ∷ rounds) loop =
        elim (epoch_step pages scored cfg (met r loop.info) loop) [
          | none ↦ (loop, nothing_printed)
          | some (loop', line) ↦
              let (last, later) = main_loop cfg interval tracing rounds loop' in
              (
                last,
                record {
                  summary = line ∷ later.summary;
                  trace = trace_round cfg tracing r loop ++ later.trace;
                  pauses = pause interval r.env.epoch_ms ∷ later.pauses;
                },
              )
        ]

    abbrev pub first_loop : WorkloadInfo → Policy D → Loop D
    first_loop info policy = record {
      epoch = 0;
      info = info;
      last_phase = negsuc 0;
      mgr = new_manager;
      policy = policy;
    }

    module _ (readers : Readers D) (vmas : Sorter VmRegion) (m : Machine D S) where
      -- What follows the wait.
      unfoldable pub with_workload : Options D → Policy D → WorkloadInfo → Outcome D
      with_workload o policy info =
          if (discover_workload_regions vmas m.maps).1
          then (if (start_recording m.loaded m.cpus nothing_open).1
              then exits 0
                  (main_loop o.config o.epoch_interval_ms (o.trace_mode && m.trace_opens) m.rounds
                    (first_loop info policy)).1
                  (false ∷ true ∷ [])
              else exits 1 nothing_printed [])
          else exits 1 nothing_printed []

      unfoldable pub as_root : Options D → Policy D → Outcome D
      unfolding with_workload
      as_root o policy = elim (wait_for_workload m.polls m.uninitialised) [
        | none ↦ exits 0 nothing_printed []
        | some info ↦ with_workload o policy info
      ]

      unfoldable pub run_main : List String → Outcome D
      unfolding as_root
      run_main args = elim (start readers args) [
        | usage ↦ exits 1 nothing_printed []
        | uncaught ↦ aborted
        | unknown_policy ↦ exits 1 nothing_printed []
        | ready pid o policy ↦ if m.is_root then as_root o policy else exits 1 nothing_printed []
      ]
