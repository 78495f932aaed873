-- ===== src/Lib.antt =====
-- A memory-tiering daemon: it samples the memory accesses of a workload with an eBPF program,
-- keeps statistics of each page, and moves pages between a fast and a slow NUMA node by a policy.
--
-- The parts and the code that they follow, with paths from the repository's root:
--   * Page: `PageMetadata` and `PageSample` of daemon/tier_manager.h and daemon/ebpf_sampler.h,
--     and what the loops of `TierManager::detect_accesses` do to one page.
--   * TierManager: daemon/tier_manager.cpp. `TierManager/Accesses` is `detect_accesses`,
--     `TierManager/Nodes` is `update_page_nodes`, `calculate_misplaced_pages` and `get_node`,
--     `TierManager/Migration` is `migrate_pages`. Each method is a function from the object's
--     state before the call to the state after it. `TierManager/Invariant` and `TierManager/Tidy`
--     say what they keep.
--   * Policy: daemon/policy.cpp. `Policy/Plan` is the promote/demote loop that three policies
--     have, `Policy/Baseline` the LRU, LFU and decaying LFU policies, `Policy/Scored` the
--     `MLPolicy` and the `HeuristicPolicy` with the weights of daemon/ml_weights.h,
--     `Policy/Random` the random policy, `Policy/Dispatch` the class `Policy` and `get_policy`.
--   * Cusum: the change-point detector of daemon/cusum.h and daemon/cusum.cpp, which sets the
--     margins of `MLPolicy`.
--   * Sampler: daemon/ebpf_sampler.cpp (`Sampler/Regions`, `Sampler/Epoch`, `Sampler/Recording`)
--     and the eBPF program daemon/bpf/mem_sampler.bpf.c (`Sampler/Program`); `Sampler/BpfMap` is
--     the map between the two, `Sampler/Flow` the way of a sample through both. `Sampler/Object`
--     is the class `EbpfSampler`, whose methods call those functions: `new_sampler` is the
--     constructor, `destroy_sampler` the destructor, `sampler_discover`, `sampler_start`,
--     `sampler_reset` and `sampler_epoch` are the methods, and `Reach` the states that calls lead
--     to.
--   * Daemon: daemon/daemon.cpp. `Daemon/Options` is the command line, with the settings that a
--     user chooses in `Daemon/Options/Choices`, `Daemon/Epoch` one round of the main loop:
--     sampling, `detect_accesses`, the query of the nodes, the policy's run, the query again, and
--     the line that is printed; `Daemon/Trace` the lines of the trace file. `Daemon/Main` is the
--     rest of `main`: the wait for the workload, the start of the recording, the loop and the exit
--     codes; `Daemon/Main/Counted` puts the sampler's epochs under it.
--   * Workload: workload/workload.cpp. `Workload/Info` is the file that tells the daemon of the
--     workload, with `read_workload_info` of daemon/daemon.cpp that reads it; `Workload/Phases`
--     the access patterns of the six phases and the loop of `run_phase`, with the pointer chase in
--     `Workload/Chase`; `Workload/Main` is `main`.
--   * System: the daemon on the file that the workload writes, and, in `System/Traced`, with the
--     sampler and the eBPF program on a traced process.
--   * Memtrace: the Pin tool simulator/traces/memtrace.cpp, each of its analysis functions a
--     function on the caches and the trace, with the caches' shapes in `Memtrace/Geometry`;
--     `instruction` runs the calls that `Instruction` inserts.
--   * Config: the global settings and the constants of workload/workload.h.
--   * Prelude, Float, OrderedMap and Sorting: integers, floating-point numbers, `std::map` and
--     `std::sort`. Tests: the theorems at concrete inputs.
--
-- What is a parameter, since its code is not in the repository: the operations on doubles
-- (`Float`, with the laws of an order where a theorem needs them; `Float/Fixed` is an instance in
-- fixed point), `std::sort` (`Sorter`, with the contract of the C++ standard, which is for a strict
-- weak order alone: where a policy's comparison may be none, as the decaying LFU's, a theorem asks
-- for one on the pages that it sorts, `Policy/Sorts`), the system call
-- `move_pages` (`Kernel`: any result and any status vector), the eBPF map (`BpfMap`), the lines
-- that `sscanf` reads, `stoi` and `stod` (`Readers`), `pow`, `std::shuffle`, `mmap`, the file
-- streams (`Streams`, with a law that what is written on a line is read back), the replies of
-- libbpf and of the kernel to the recorder's calls (`PerfCalls`), the caches of pin_cache.H
-- (`CacheOps`), and the values drawn at random.
--
-- Numbers: a signed integer is an unbounded ℤ, as its overflow is undefined in C++, and a counter
-- that starts at zero and is only incremented is a natural number; unsigned 64-bit sums and the
-- conversion of such a sum to `int` wrap. `std::map` is an association list with
-- ascending keys, and the `std::unordered_map` of the samples a list of distinct pages, or, in
-- `TierManager/Accesses/Unordered`, a quotient of such lists by their order.
--
-- Bounds: the loop that collects the keys of the eBPF map runs on fuel; any fuel above the number
-- of keys that the iteration visits is enough, and the map holds at most 8192
-- (`MAX_PAGE_ENTRIES`). Every other loop recurses on a list or on the number of rounds left. The
-- loops of the two programs that wait for a signal or for the clock recurse on what they meet: the
-- file at each poll, the rounds that begin before a signal clears `keep_running`, the rounds that
-- the clock lets a phase run.
--
-- Not modelled: a run of the eBPF program while `sample_epoch` reads and empties its map (the model
-- counts an epoch's samples before the call; a sample that the real program counts between the
-- lookup and the deletion of its key is lost), messages, the values of the clocks, the workload's
-- pauses, a signal between the end of the wait and the test behind it, the `errno` of calls other
-- than `kill`, a file of the workload that does not open for writing, the statistics of the trace
-- tool's caches; the copies of STREAM and of the GAP Benchmark Suite; the generated
-- daemon/bpf/mem_sampler.skel.h; the Python and shell programs.
pub mod Prelude
pub mod Float
pub mod OrderedMap
pub mod Sorting
pub mod Cusum
pub mod Config
pub mod Page
pub mod TierManager
pub mod Policy
pub mod Sampler
pub mod Daemon
pub mod Workload
pub mod System
pub mod Memtrace
mod Tests
