-- ===== src/Sampler/Object/Lifetime.antt =====
-- An `EbpfSampler` of daemon/ebpf_sampler.cpp through any calls of its methods: what it holds of the
-- kernel's descriptors and links, and which process the eBPF program traces for it.
use os_research_codebase.Prelude.{ℕ, ◌≡◌, List, Option, none, some, ℤ}
use os_research_codebase.Float.{Float}
use os_research_codebase.Sorting.{Sorter}
use os_research_codebase.Sampler.BpfMap.{BpfMap}
use os_research_codebase.Sampler.Regions.{VmRegion, MapsLine}
use os_research_codebase.Sampler.Program.{Bss, Event}
use os_research_codebase.Sampler.Object.Accounts.{Accounted}
use os_research_codebase.Sampler.Object.{
  EbpfSampler, PerfCalls, new_sampler, sampler_discover, sampler_start, sampler_reset,
  sampled_by_program, sampler_epoch, unsigned_pid,
}

-- The eBPF program, if it is loaded, compares with the pid.
abbrev pub Traces : {M : Type 0} → ℤ → Option (Bss M) → Type 0
Traces pid none = Unit {0}
Traces pid (some bss) = bss.target_pid ≡ unsigned_pid pid

module _ {M D : Type 0} ⦃f : Float D⦄ (b : BpfMap M) where
  -- The states that an object of a process comes to by calls of its methods, in any order and number, and by runs
  -- of the eBPF program between them.
  pub data Reach (pid : ℤ) : EbpfSampler M D → Type 0 where
    made : Reach pid (new_sampler pid)
    discovers :
        {s : EbpfSampler M D} (sorter : Sorter VmRegion) (lines : Option (List MapsLine))
        → Reach pid s
        → Reach pid (sampler_discover sorter lines s).0
    starts :
        {s : EbpfSampler M D} (calls : PerfCalls M)
        → Reach pid s
        → Reach pid (sampler_start calls s).0
    resets : {s : EbpfSampler M D} → Reach pid s → Reach pid (sampler_reset s)
    runs :
        {s : EbpfSampler M D} (es : List Event)
        → Reach pid s
        → Reach pid (sampled_by_program b es s)
    takes_over :
        {s t : EbpfSampler M D} (fuel : ℕ) (parse_ms : D)
        → sampler_epoch b fuel parse_ms s ≡ some t
        → Reach pid s
        → Reach pid t

  record Sound (pid : ℤ) (s : EbpfSampler M D) : Type 0 where
    pub own : s.target_pid ≡ pid
    pub traces : Traces pid s.skel
    pub accounted : Accounted s.recording
