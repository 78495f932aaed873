-- ===== src/Sampler/Flow.antt =====
-- From the eBPF program to the sampler: the samples that daemon/bpf/mem_sampler.bpf.c counts in the map
-- `page_counts`, and what `EbpfSampler::sample_epoch` of daemon/ebpf_sampler.cpp makes of them.
pub mod Keys
pub mod Sums
pub mod Gathered
use mathlib.Core.Option
use os_research_codebase.Prelude.{
  ℕ, ◌+◌, ◌%◌, ◌^◌, ◌<◌, ◌≡◌, refl, ◌∙◌, ap, Bool, true, false, ◌&&◌, ◌==◌, if◌then◌else◌, List, [],
  ◌∷◌, Option, none, some, ℤ, pos, ◌+ℤ◌, int_of_unsigned-lt, arith, length, count, count-le-length,
  Bool-cases, Option-cases, inl, inr,
}
use os_research_codebase.Float.{Float}
use os_research_codebase.OrderedMap.{OrderedMap}
use os_research_codebase.Page.{PageSample}
use os_research_codebase.Sorting.{Distinct}
use os_research_codebase.Sampler.BpfMap.{is_among, BpfMap, Visits, Deletes, total_of}
use os_research_codebase.Sampler.Regions.{VmRegion, is_workload_vma}
use os_research_codebase.Sampler.Program.{
  Bss, Event, page_of, count_page, sample_mem, sample_all, is_relevant, sample_mem_effect,
}
use os_research_codebase.Sampler.Epoch.{sample_epoch, get_sample_count}
use os_research_codebase.Sampler.Epoch.Transfer.{aggregated, sample_epoch_transfer}

abbrev pub sample_count_of : {D : Type 0} → Option (PageSample D) → ℤ
sample_count_of none = pos 0
sample_count_of (some s) = s.sample_count

abbrev pub amount : Option ℕ → ℕ
amount none = 0
amount (some t) = t

pub emptied :
    (among : Bool) (before after : Option (List ℕ))
    → after ≡ (if among then none else before)
    → (among ≡ false → before ≡ none)
    → after ≡ none
emptied true before after e z = e
emptied false before after e z = e ∙ z refl

module _ {M : Type 0} (b : BpfMap M) where
  -- The sum of a key's counters over the CPUs.
  abbrev pub totals : M → ℕ → Option ℕ
  totals m k = Option.map total_of (b.lookup m k)

  abbrev pub counted : M → ℕ → ℕ
  counted m k = amount (totals m k)

  -- What is documented of the two operations that the program uses: in a map with room, where `size`
  -- is the number of entries, a new key is stored with the value 1, and an increment adds one to the counter of its key.
  pub record Counts (size : M → ℕ) : Type 0 where
    pub totals-create :
        (m : M) (k j cpu : ℕ)
        → b.lookup m j ≡ none
        → size m < 8192
        → totals (b.create m j cpu) k ≡ (if k == j then some 1 else totals m k)
    pub totals-add_one :
        (m : M) (k j cpu : ℕ)
        → totals (b.add_one m j cpu) k
          ≡ (if k == j then Option.map (λ t. (t + 1) % 2 ^ 64) (totals m k) else totals m k)

  created :
      (m : M) (k page : ℕ)
      → b.lookup m page ≡ none
      → amount (if k == page then some 1 else totals m k)
        ≡ (if k == page then (counted m k + 1) % 2 ^ 64 else counted m k)
  created m k page e = ground (arith, e)

  added :
      (m : M) (k page : ℕ) (values : List ℕ)
      → b.lookup m page ≡ some values
      → amount (if k == page then Option.map (λ t. (t + 1) % 2 ^ 64) (totals m k) else totals m k)
        ≡ (if k == page then (counted m k + 1) % 2 ^ 64 else counted m k)
  added m k page values e = ground (arith, e)

  module _ (size : M → ℕ) (counts : Counts size) where
    counted-count_page :
        (m : M) (k page cpu : ℕ)
        → size m < 8192
        → counted (count_page b m page cpu) k
          ≡ (if k == page then (counted m k + 1) % 2 ^ 64 else counted m k)
    unfolding count_page
    counted-count_page m k page cpu room = elim (Option-cases (b.lookup m page)) [
      | inl e ↦
          rw (e, count_page)
            (ap amount (counts.totals-create m k page cpu e room) ∙ created m k page e)
      | inr (values, e) ↦
          rw (e, count_page)
            (ap amount (counts.totals-add_one m k page cpu) ∙ added m k page values e)
    ]

    -- The map has room for an entry whenever the program runs.
    abbrev pub AlwaysRoom : List Event → Bss M → Type 0
    AlwaysRoom [] s = Unit {0}
    AlwaysRoom (e ∷ es) s = (size s.page_counts < 8192) × AlwaysRoom es (sample_mem b e s)

    -- Whether the program counts the sample for the page.
    abbrev pub falls_on : ℕ → ℕ → Event → Bool
    falls_on target page e = is_relevant b target e && page == page_of e.addr

    counted-sample_mem :
        (e : Event) (s : Bss M) (page : ℕ)
        → size s.page_counts < 8192
        → counted (sample_mem b e s).page_counts page ≡ (
            if falls_on s.target_pid page e
            then (counted s.page_counts page + 1) % 2 ^ 64
            else counted s.page_counts page)
    counted-sample_mem e s page room = elim (Bool-cases (is_relevant b s.target_pid e)) [
      | inl r ↦
          rw ((sample_mem_effect b e s).3, r)
            (counted-count_page s.page_counts page (page_of e.addr) e.cpu room)
      | inr r ↦ rw ((sample_mem_effect b e s).3, r)
    ]

    pub counted-sample_all :
        (es : List Event) (s : Bss M) (page : ℕ)
        → AlwaysRoom es s
        → counted s.page_counts page < 2 ^ 64
        → counted (sample_all b es s).page_counts page
          ≡ (counted s.page_counts page + count (falls_on s.target_pid page) es) % 2 ^ 64
    unfolding sample_all
    counted-sample_all [] s page r h = omega arith
    counted-sample_all (e ∷ es) s page (room, r) h = ground (
      arith,
      counted-sample_all es (sample_mem b e s) page r (bounded (counted-sample_mem e s page room)),
      target,
      counted-sample_mem e s page room,
    )
      where
        target :
            count (falls_on (sample_mem b e s).target_pid page) es
            ≡ count (falls_on s.target_pid page) es
        target = ap (λ t. count (falls_on t page) es) (sample_mem_effect b e s).0

        bounded :
            counted (sample_mem b e s).page_counts page ≡ (
              if falls_on s.target_pid page e
              then (counted s.page_counts page + 1) % 2 ^ 64
              else counted s.page_counts page)
            → counted (sample_mem b e s).page_counts page < 2 ^ 64
        bounded one = ground (arith, one)

    pub taken :
        (D : Type 0) ⦃f : Float D⦄ (regions : List VmRegion) (k t : ℕ) (among : Bool)
        (o : Option (List ℕ))
        → amount (Option.map total_of o) ≡ t
        → t < 2 ^ 31
        → (among ≡ false → o ≡ none)
        → sample_count_of {D = D} (if among then aggregated b regions k o none else none)
          ≡ (if is_workload_vma regions k then pos t else pos 0)
    unfolding ◌+ℤ◌ aggregated
    taken D regions k t true none e h z = ground (arith, e)
    taken D regions k t true (some values) e h z =
        ground (arith, e, int_of_unsigned-lt (total_of values))
    taken D regions k t false o e h z =
        ground (arith, e, ap (λ x. amount (Option.map total_of x)) (z refl))

    module _ {D : Type 0} ⦃f : Float D⦄ (regions : List VmRegion) where
      -- On a map whose operations are as documented, that has room throughout and held no count of
      -- the page at first, let the program run on fewer than 2^31 samples, and the sampler take the
      -- epoch over, by an iteration that visits every key once, with fuel above their number. Then it
      -- returns, the page's sample counts the traced process's samples with an address in the page, if
      -- the page is in a region, and none otherwise, and the map holds the page no more.
      pub sample_all-sample_epoch :
          Deletes b
          → (es : List Event) (s : Bss M) (keys : List ℕ) (fuel page : ℕ) → AlwaysRoom es s
          → length es < 2 ^ 31
          → b.lookup s.page_counts page ≡ none
          → Visits b (sample_all b es s).page_counts keys
          → Distinct keys
          → (is_among page keys ≡ false → b.lookup (sample_all b es s).page_counts page ≡ none)
          → length keys < fuel
          → (m' : M) × (samples : OrderedMap (PageSample D)) × (sample_epoch b regions fuel
                (sample_all b es s).page_counts
              ≡ some (m', samples))
            × (get_sample_count samples page ≡ (
                if is_workload_vma regions page
                then pos (count (falls_on s.target_pid page) es)
                else pos 0))
            × (b.lookup m' page ≡ none)
      unfolding get_sample_count
      sample_all-sample_epoch deletes es s keys fuel page room few fresh v d all enough =
          let (m', samples, e, found, left) =
            sample_epoch_transfer b regions deletes fuel (sample_all b es s).page_counts keys page v
              d enough in
          (
            m',
            samples,
            e,
            ap sample_count_of found
                ∙ taken D regions page (count (falls_on s.target_pid page) es) (is_among page keys)
                    (b.lookup (sample_all b es s).page_counts page) total bounded all,
            emptied (is_among page keys) (b.lookup (sample_all b es s).page_counts page)
                (b.lookup m' page) left all,
          )
        where
          bounded : count (falls_on s.target_pid page) es < 2 ^ 31
          bounded = omega (arith, few, count-le-length (falls_on s.target_pid page) es)

          none_yet : counted s.page_counts page ≡ 0
          none_yet = ap (λ o. amount (Option.map total_of o)) fresh

          total :
              counted (sample_all b es s).page_counts page ≡ count (falls_on s.target_pid page) es
          total =
              counted-sample_all es s page room (omega (arith, none_yet))
              ∙ omega (arith, none_yet, bounded)
