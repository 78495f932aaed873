-- ===== src/Sampler/Object.antt =====
-- The class `EbpfSampler` of daemon/ebpf_sampler.h and daemon/ebpf_sampler.cpp: an object from its
-- construction to its destruction.
pub mod Accounts
pub mod Lifetime
pub mod Epochs
use os_research_codebase.Prelude.{
  ℕ, zero, suc, ◌-◌, ◌%◌, ◌^◌, Bool, true, false, if◌then◌else◌, List, [], ◌∷◌, ◌++◌, Option, none,
  some, ℤ, pos, negsuc, pos_part,
}
use os_research_codebase.Float.{Float}
use os_research_codebase.OrderedMap.{OrderedMap}
use os_research_codebase.Page.{PageSample}
use os_research_codebase.Sorting.{Sorter}
use os_research_codebase.Sampler.BpfMap.{BpfMap}
use os_research_codebase.Sampler.Regions.{VmRegion, MapsLine, tracked_regions, starts_before}
use os_research_codebase.Sampler.Program.{Bss, Event, sample_all}
use os_research_codebase.Sampler.Recording.{
  CpuReply, Recording, attach_all, start_recording, stop_recording, nothing_open,
}
use os_research_codebase.Sampler.Epoch.{sample_epoch}

-- The bits of `sample_type`, whose values linux/perf_event.h gives.
pub data SampleBit : Type 0 where
  perf_sample_addr perf_sample_ip perf_sample_tid : SampleBit

-- The fields of `perf_event_attr` that the sampler sets; it zeroes the others.
pub record PerfEventAttr : Type 0 where
  pub kind : ℕ
  pub config : ℕ
  pub config1 : ℕ
  pub freq : ℕ
  pub sample_freq : ℕ
  pub sample_type : List SampleBit
  pub precise_ip : ℕ
  pub disabled : ℕ

-- The same for each CPU.
abbrev pub sampling_attr : PerfEventAttr
sampling_attr = record {
  kind = 4;
  config = 461;
  config1 = 0;
  freq = 1;
  sample_freq = 40000;
  sample_type = perf_sample_addr ∷ perf_sample_ip ∷ perf_sample_tid ∷ [];
  precise_ip = 2;
  disabled = 1;
}

-- What libbpf and the kernel reply: the skeleton, if it opens and loads, the number of CPUs, which
-- is negative on an error, the descriptor of a CPU's event, if it opens, and the link of a
-- descriptor, if the program attaches.
pub record PerfCalls (M : Type 0) : Type 0 where
  pub open_and_load : Option (Bss M)
  pub num_possible_cpus : ℤ
  pub perf_event_open : PerfEventAttr → ℕ → Option ℕ
  pub attach_perf_event : ℕ → Option ℕ

-- An object; `skel` is the null pointer, or what it points to, which the eBPF program shares.
pub record EbpfSampler (M D : Type 0) : Type 0 where
  pub target_pid : ℤ
  pub skel : Option (Bss M)
  pub recording : Recording
  pub vma_regions : List VmRegion
  pub page_samples : OrderedMap (PageSample D)
  pub last_parse_duration_ms : D

-- A pid as the eBPF program compares it, as a `__u32`.
abbrev pub unsigned_pid : ℤ → ℕ
unsigned_pid (pos n) = n % 2 ^ 32
unsigned_pid (negsuc n) = 2 ^ 32 - 1 - n % 2 ^ 32

module _ {M : Type 0} (calls : PerfCalls M) where
  abbrev link_of : Option ℕ → Option ℕ
  link_of none = none
  link_of (some fd) = calls.attach_perf_event fd

  -- What the body of the loop gets for a CPU.
  abbrev pub cpu_reply : ℕ → CpuReply
  cpu_reply cpu = record {
    fd = calls.perf_event_open sampling_attr cpu;
    link = link_of (calls.perf_event_open sampling_attr cpu);
  }

  -- The replies for `left` CPUs from `cpu` on.
  unfoldable pub cpu_replies : ℕ → ℕ → List CpuReply
  cpu_replies cpu zero = []
  cpu_replies cpu (suc left) = cpu_reply cpu ∷ cpu_replies (suc cpu) left

module _ {M D : Type 0} ⦃f : Float D⦄ where
  -- The constructor.
  unfoldable pub new_sampler : ℤ → EbpfSampler M D
  new_sampler pid = record {
    target_pid = pid;
    skel = none;
    recording = nothing_open;
    vma_regions = [];
    page_samples = [];
    last_parse_duration_ms = f.of_int (pos 0);
  }

  -- `discover_workload_regions`, which adds to the regions that are there.
  unfoldable pub sampler_discover :
      Sorter VmRegion → Option (List MapsLine) → EbpfSampler M D → EbpfSampler M D × Bool
  sampler_discover sorter none s = (s, false)
  sampler_discover sorter (some lines) s =
      let all = s.vma_regions ++ tracked_regions lines in
      (
        record s { vma_regions = sorter.sort starts_before all },
        elim all [ [] ↦ false | r ∷ rs ↦ true ],
      )

  -- `start_recording`
  unfoldable pub sampler_start : PerfCalls M → EbpfSampler M D → EbpfSampler M D × Bool
  unfolding cpu_replies
  sampler_start calls s = elim calls.open_and_load [
    | none ↦ (record s { skel = none }, false)
    | some bss ↦
        let replies = cpu_replies calls 0 (pos_part calls.num_possible_cpus) in
        let (recording, started) = start_recording true replies s.recording in
        (
          record s {
            skel = some (record bss { target_pid = unsigned_pid s.target_pid });
            recording = recording;
          },
          started,
        )
  ]

  -- The eBPF program runs on samples, on the memory that it shares with the object.
  unfoldable pub sampled_by_program : BpfMap M → List Event → EbpfSampler M D → EbpfSampler M D
  sampled_by_program b es s = elim s.skel [
    | none ↦ s
    | some bss ↦ record s { skel = some (sample_all b es bss) }
  ]

  -- `reset`
  unfoldable pub sampler_reset : EbpfSampler M D → EbpfSampler M D
  sampler_reset s = record s { page_samples = [] }

  -- `sample_epoch`, on fuel, with the time that it takes; `none` if the fuel runs out, or if the
  -- skeleton is the null pointer, which it reads through.
  unfoldable pub sampler_epoch : BpfMap M → ℕ → D → EbpfSampler M D → Option (EbpfSampler M D)
  sampler_epoch b fuel parse_ms s = elim s.skel [
    | none ↦ none
    | some bss ↦ elim (sample_epoch b {D = D} s.vma_regions fuel bss.page_counts) [
      | none ↦ none
      | some (m, samples) ↦ some (record s {
        skel = some (record bss { page_counts = m });
        page_samples = samples;
        last_parse_duration_ms = parse_ms;
      })
    ]
  ]

  -- The destructor.
  unfoldable pub destroy_sampler : EbpfSampler M D → EbpfSampler M D
  destroy_sampler s = record s { skel = none; recording = stop_recording s.recording }
