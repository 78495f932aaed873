-- ===== src/Workload/Info.antt =====
-- `update_shared_info` of workload/workload.cpp, which writes the workload's state to a file, and
-- `read_workload_info` of daemon/daemon.cpp, which reads it.
use os_research_codebase.Prelude.{
  ℕ, ◌≡◌, Bool, false, List, [], ◌∷◌, Option, none, some, ℤ, pos, ltb_ℤ, if◌then◌else◌, arith,
}
use os_research_codebase.Daemon.Epoch.{WorkloadInfo}

-- The streams of the C++ library, over a type `W` of words of text. `show_int` and `show_pointer` are `<<` on a stream. On an input
-- stream, `int` is `>>` into an `int` variable: the value before, and that after; `word` is `>>` into
-- an empty string, whose test is `is_empty`. `stoull` is that to the base 16, with `none` for an exception.
pub record Streams (S W : Type 0) : Type 0 where
  pub show_int : ℤ → W
  pub show_pointer : ℕ → W
  pub opened : List W → S
  pub int : S → ℤ → ℤ × S
  pub word : S → W × S
  pub is_empty : W → Bool
  pub stoull : W → Option ℕ

-- What is written on a line of its own is read back.
pub record ReadsBack {S W : Type 0} (io : Streams S W) : Type 0 where
  pub int-show_int :
      (n old : ℤ) (lines : List W)
      → io.int (io.opened (io.show_int n ∷ lines)) old ≡ (n, io.opened lines)
  pub word-show_pointer :
      (p : ℕ) (lines : List W)
      → io.word (io.opened (io.show_pointer p ∷ lines)) ≡ (io.show_pointer p, io.opened lines)
  pub show_pointer_nonempty : (p : ℕ) → io.is_empty (io.show_pointer p) ≡ false
  pub stoull-show_pointer : (p : ℕ) → io.stoull (io.show_pointer p) ≡ some p

module _ {S W : Type 0} (io : Streams S W) where
  -- The new state of `info`, and the lines of the file.
  unfoldable pub update_shared_info : WorkloadInfo → ℤ → WorkloadInfo × List W
  update_shared_info info phase =
      let info' = record info { current_phase = phase } in
      (
        info',
        io.show_int info'.pid
            ∷ io.show_pointer info'.base_address
            ∷ io.show_int info'.total_pages
            ∷ io.show_int info'.current_phase
            ∷ [],
      )

  -- What follows the address: the last two numbers.
  read_counts : S → WorkloadInfo → WorkloadInfo × Bool
  read_counts s info =
      let (total_pages, s1) = io.int s info.total_pages in
      let (phase, s2) = io.int s1 info.current_phase in
      (record info { total_pages = total_pages; current_phase = phase }, ltb_ℤ (pos 0) total_pages)

  -- The new state of `info`, and what is returned; the file is `none` if it does not open. An
  -- exception leaves the pid that was read.
  unfoldable pub read_workload_info : Option S → WorkloadInfo → WorkloadInfo × Bool
  unfolding read_counts
  read_workload_info none info = (info, false)
  read_workload_info (some s) info =
      let (pid, s1) = io.int s info.pid in
      let (addr_str, s2) = io.word s1 in
      let info' = record info { pid = pid } in
      if io.is_empty addr_str then (info', false) else elim (io.stoull addr_str) [
        | none ↦ (info', false)
        | some base ↦ read_counts s2 (record info' { base_address = base })
      ]

  -- If what is written on a line is read back, the daemon reads what the workload wrote, whatever it
  -- knew before, and takes it as valid exactly if there are pages.
  pub read_workload_info-update_shared_info :
      ReadsBack io
      → (info old : WorkloadInfo) (phase : ℤ)
      → read_workload_info (some (io.opened (update_shared_info info phase).1)) old
        ≡ ((update_shared_info info phase).0, ltb_ℤ (pos 0) info.total_pages)
  unfolding read_workload_info update_shared_info read_counts
  read_workload_info-update_shared_info r info old phase = ground (
    arith,
    r.int-show_int info.pid old.pid (address ∷ counts),
    r.word-show_pointer info.base_address counts,
    r.show_pointer_nonempty info.base_address,
    r.stoull-show_pointer info.base_address,
    r.int-show_int info.total_pages old.total_pages (io.show_int phase ∷ []),
    r.int-show_int phase old.current_phase [],
  )
    where
      address : W
      address = io.show_pointer info.base_address

      counts : List W
      counts = io.show_int info.total_pages ∷ io.show_int phase ∷ []
