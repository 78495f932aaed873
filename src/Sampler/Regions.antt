-- ===== src/Sampler/Regions.antt =====
-- `EbpfSampler::discover_workload_regions` and `is_workload_vma`.
pub mod Lookup
use os_research_codebase.Prelude.{
  ℕ, ◌+◌, ◌-◌, ◌/◌, ◌%◌, ◌^◌, ◌≡◌, Bool, true, false, ◌&&◌, ltb, leb, ◌==◌, if◌then◌else◌, List, [],
  ◌∷◌, Option, none, some,
}
use Prim.Native.String.{String}
use text.Mathlib.Text.{◌==◌ as str_eq}
use os_research_codebase.Sorting.{Sorter}

pub record VmRegion : Type 0 where
  pub va_start : ℕ
  pub va_end : ℕ

-- What `sscanf` reads from a line of /proc/<pid>/maps, and how many of the seven items it matched.
pub record MapsLine : Type 0 where
  pub matched : ℕ
  pub start : ℕ
  pub end : ℕ
  pub perms : String
  pub inode : ℕ

-- A private anonymous writable mapping of four kilobytes at least. The size is a `size_t`.
unfoldable pub is_tracked : MapsLine → Bool
is_tracked line =
    leb 7 line.matched
    && (str_eq line.perms "rw-p" && line.inode == 0)
    && leb 4 ((line.end + 2 ^ 64 - line.start) % 2 ^ 64 / 1024)

unfoldable pub tracked_regions : List MapsLine → List VmRegion
unfolding is_tracked
tracked_regions [] = []
tracked_regions (line ∷ lines) =
    if is_tracked line
    then record { va_start = line.start; va_end = line.end } ∷ tracked_regions lines
    else tracked_regions lines

abbrev pub starts_before : VmRegion → VmRegion → Bool
starts_before a b = ltb a.va_start b.va_start

-- `discover_workload_regions` on the lines of the file, `none` if it cannot be opened: the sorted
-- regions, and whether there are any.
unfoldable pub discover_workload_regions :
    Sorter VmRegion → Option (List MapsLine) → List VmRegion × Bool
discover_workload_regions sorter none = ([], false)
discover_workload_regions sorter (some lines) =
    let found = tracked_regions lines in
    (sorter.sort starts_before found, elim found [ [] ↦ false | r ∷ rs ↦ true ])

-- `std::upper_bound` by `va_start` and the step back from it: the last region that starts at `va`
-- or before, on regions sorted by their start; `prev` is the one before the list.
unfoldable pub last_starting : ℕ → Option VmRegion → List VmRegion → Option VmRegion
last_starting va prev [] = prev
last_starting va prev (r ∷ rs) = if ltb va r.va_start then prev else last_starting va (some r) rs

-- `is_workload_vma`
unfoldable pub is_workload_vma : List VmRegion → ℕ → Bool
unfolding last_starting
is_workload_vma regions va = elim (last_starting va none regions) [
  | none ↦ false
  | some r ↦ ltb va r.va_end
]
