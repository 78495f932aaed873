-- ===== src/Daemon/Main/Ends.antt =====
-- How `main` of daemon/daemon.cpp ends: the exit codes, and the way from the workload's first file to
-- its last.
use Prim.Native.String.{String}
use os_research_codebase.Prelude.{
  ◌≡◌, Bool, true, false, ◌&&◌, List, [], ◌∷◌, ◌++◌, Option, none, some, ℤ, pos, leb_ℤ, ltb_ℤ,
  arith,
}
use os_research_codebase.Float.{Float}
use os_research_codebase.Page.{PageMetadata}
use os_research_codebase.Sorting.{Sorter}
use os_research_codebase.Policy.Scored.{ScoredPage}
use os_research_codebase.Policy.Dispatch.{Policy}
use os_research_codebase.Sampler.Regions.{VmRegion, discover_workload_regions}
use os_research_codebase.Sampler.Recording.{nothing_open, start_recording}
use os_research_codebase.Workload.Info.{
  Streams, ReadsBack, update_shared_info, read_workload_info, read_workload_info-update_shared_info,
}
use os_research_codebase.Daemon.Options.{Readers, Options, ready, start}
use os_research_codebase.Daemon.Epoch.{WorkloadInfo}
use os_research_codebase.Daemon.Main.{
  Round, Printed, nothing_printed, Machine, exits, wait_for_workload, main_loop, first_loop,
  with_workload, as_root, run_main,
}
use os_research_codebase.Daemon.Main.Stops.{Final, main_loop_stops}

-- Every poll of a file that is not there leaves `info` as it was.
abbrev pub missing : {S : Type 0} → List (Option S) → List (Option S)
missing [] = []
missing (file ∷ polls) = none ∷ missing polls

module _ {S W : Type 0} (io : Streams S W) where
  -- The wait ends with the first file that the workload wrote, after any number of polls in vain.
  pub wait_for_workload-update_shared_info :
      ReadsBack io
      → (early more : List (Option S)) (old info : WorkloadInfo) (phase : ℤ)
      → leb_ℤ (pos 0) phase ≡ true
      → ltb_ℤ (pos 0) info.total_pages ≡ true
      → wait_for_workload io
          (missing early ++ some (io.opened (update_shared_info io info phase).1) ∷ more)
          old
        ≡ some (update_shared_info io info phase).0
  unfolding wait_for_workload read_workload_info update_shared_info
  wait_for_workload-update_shared_info back [] more old info phase h k =
      rw (read_workload_info-update_shared_info io back info old phase) (rw (h, k))
  wait_for_workload-update_shared_info back (file ∷ early) more old info phase h k =
      wait_for_workload-update_shared_info back early more old info phase h k

  module _ {D : Type 0} ⦃f : Float D⦄ (pages : Sorter (PageMetadata D))
      (scored : Sorter (ScoredPage D)) (readers : Readers D) (vmas : Sorter VmRegion)
      (m : Machine D S) where
    -- An exit with the code 1 has printed no line of the summary or the trace, and has written
    -- nothing to numa_balancing.
    pub run_main_failure :
        (args : List String) (out : Printed D) (settings : List Bool)
        → run_main io pages scored readers vmas m args ≡ exits 1 out settings
        → (out ≡ nothing_printed) × (settings ≡ [])
    unfolding run_main as_root with_workload
    run_main_failure args out settings e = ground arith

    -- Let what is written on a line be read back. If the arguments are in order, the user is
    -- root, the workload's file appears, after any number of polls that do not find one, as
    -- written for a phase that is not negative with a positive number of pages, the workload's
    -- memory is found and the recording starts, then a round that finds the workload gone or a
    -- negative phase ends the process with the code 0: it has printed what the rounds before
    -- made, and has turned the kernel's balancing off and on again.
    pub run_main_ends :
        ReadsBack io
        → (args : List String) (pid : ℤ) (o : Options D) (policy : Policy D)
          (early more : List (Option S)) (before after : List (Round D S)) (r : Round D S)
          (info : WorkloadInfo) (phase : ℤ)
        → start readers args ≡ ready pid o policy
        → m.is_root ≡ true
        → m.polls ≡ missing early ++ some (io.opened (update_shared_info io info phase).1) ∷ more
        → leb_ℤ (pos 0) phase ≡ true
        → ltb_ℤ (pos 0) info.total_pages ≡ true
        → (discover_workload_regions vmas m.maps).1 ≡ true
        → (start_recording m.loaded m.cpus nothing_open).1 ≡ true
        → m.rounds ≡ before ++ r ∷ after
        → Final io r
        → run_main io pages scored readers vmas m args
          ≡ exits 0
              (main_loop io pages scored o.config o.epoch_interval_ms
                (o.trace_mode && m.trace_opens)
                before
                (first_loop io pages scored (update_shared_info io info phase).0 policy)).1
              (false ∷ true ∷ [])
    unfolding run_main main_loop
    run_main_ends back args pid o policy early more before after r info phase started root polls
          begun some_pages found recording rounds last =
        rw (
          run_main,
          started,
          root,
          as_root,
          polls,
          wait_for_workload-update_shared_info back early more m.uninitialised info phase begun
              some_pages,
          with_workload,
          found,
          recording,
          rounds,
          main_loop_stops pages scored o.config io o.epoch_interval_ms
              (o.trace_mode && m.trace_opens) back before r after
              (first_loop io pages scored (update_shared_info io info phase).0 policy) last,
        )
