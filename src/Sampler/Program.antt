-- ===== src/Sampler/Program.antt =====
-- The program `sample_mem` of daemon/bpf/mem_sampler.bpf.c, which runs at each PMU sample.
use os_research_codebase.Prelude.{
  ℕ, ◌+◌, ◌-◌, ◌/◌, ◌%◌, ◌^◌, ◌≤◌, ◌<◌, ◌≡◌, refl, ◌∙◌, Bool, not, if◌then◌else◌, ◌==◌, List, [],
  ◌∷◌, none, some, arith, ◌&&◌, length, count,
}
use os_research_codebase.Sampler.BpfMap.{BpfMap}

-- The map and the program's global variables.
pub record Bss (M : Type 0) : Type 0 where
  pub page_counts : M
  pub target_pid : ℕ
  pub debug_total_hw_samples : ℕ
  pub debug_pid_matches : ℕ
  pub debug_addr_valid : ℕ

-- A sample: `bpf_get_current_pid_tgid()`, the address and the CPU that it ran on.
pub record Event : Type 0 where
  pub pid_tgid : ℕ
  pub addr : ℕ
  pub cpu : ℕ

-- `addr & ~0xFFFULL`
unfoldable pub page_of : ℕ → ℕ
page_of addr = addr - addr % 4096

module _ {M : Type 0} (b : BpfMap M) where
  unfoldable pub count_page : M → ℕ → ℕ → M
  count_page m page cpu = elim (b.lookup m page) [
    | none ↦ b.create m page cpu
    | some values ↦ b.add_one m page cpu
  ]

  -- The counters are 64-bit and wrap.
  unfoldable pub sample_mem : Event → Bss M → Bss M
  unfolding count_page page_of
  sample_mem e s =
      let seen = record s { debug_total_hw_samples = (s.debug_total_hw_samples + 1) % 2 ^ 64 } in
      let matched = record seen { debug_pid_matches = (s.debug_pid_matches + 1) % 2 ^ 64 } in
      if not (e.pid_tgid / 2 ^ 32 % 2 ^ 32 == s.target_pid)
      then seen
      else if e.addr == 0
      then matched
      else record matched {
        debug_addr_valid = (s.debug_addr_valid + 1) % 2 ^ 64;
        page_counts = count_page s.page_counts (page_of e.addr) e.cpu;
      }

  unfoldable pub sample_all : List Event → Bss M → Bss M
  sample_all [] s = s
  sample_all (e ∷ es) s = sample_all es (sample_mem e s)

  -- The samples of the traced process that have an address.
  abbrev pub is_relevant : ℕ → Event → Bool
  is_relevant target e = (e.pid_tgid / 2 ^ 32 % 2 ^ 32 == target) && not (e.addr == 0)

  -- What one run of the program does, for a sample that is relevant and one that is not.
  pub sample_mem_effect :
      (e : Event) (s : Bss M)
      → ((sample_mem e s).target_pid ≡ s.target_pid)
        × ((sample_mem e s).debug_total_hw_samples ≡ (s.debug_total_hw_samples + 1) % 2 ^ 64)
        × ((sample_mem e s).debug_addr_valid ≡ (
            if is_relevant s.target_pid e
            then (s.debug_addr_valid + 1) % 2 ^ 64
            else s.debug_addr_valid))
        × ((sample_mem e s).page_counts ≡ (
            if is_relevant s.target_pid e
            then count_page s.page_counts (page_of e.addr) e.cpu
            else s.page_counts))
  unfolding sample_mem
  sample_mem_effect e s = ground arith

  pub sample_all-target_pid :
      (es : List Event) (s : Bss M) → (sample_all es s).target_pid ≡ s.target_pid
  unfolding sample_all
  sample_all-target_pid [] s = refl
  sample_all-target_pid (e ∷ es) s =
      sample_all-target_pid es (sample_mem e s) ∙ (sample_mem_effect e s).0

  -- Over a sequence of samples `debug_total_hw_samples` counts them all, and `debug_addr_valid` the
  -- relevant ones, as 64-bit numbers.
  pub sample_all_counters :
      (es : List Event) (s : Bss M)
      → s.debug_total_hw_samples < 2 ^ 64
      → s.debug_addr_valid < 2 ^ 64
      → ((sample_all es s).debug_total_hw_samples ≡ (s.debug_total_hw_samples + length es) % 2 ^ 64)
        × ((sample_all es s).debug_addr_valid
            ≡ (s.debug_addr_valid + count (is_relevant s.target_pid) es) % 2 ^ 64)
  unfolding sample_all
  sample_all_counters [] s h k = (omega arith, omega arith)
  sample_all_counters (e ∷ es) s h k =
      ground (arith, sample_mem_effect e s, sample_all_counters es (sample_mem e s))

-- `page_of` gives the start of the 4096-byte page that holds the address.
pub page_of_bounds :
    (addr : ℕ) → (page_of addr % 4096 ≡ 0) × (page_of addr ≤ addr) × (addr < page_of addr + 4096)
unfolding page_of
page_of_bounds addr = omega arith
