-- ===== src/Daemon/Trace.antt =====
-- The trace file of daemon/daemon.cpp: in each round a line for each tracked page.
use os_research_codebase.Prelude.{ℕ, ◌≡◌, suc, refl, ap, Bool, List, [], ◌∷◌, ℤ, pos, length, All}
use Prim.Native.String.{String}
use os_research_codebase.OrderedMap.{OrderedMap}
use os_research_codebase.Page.{PageMetadata}

abbrev pub trace_header : List String
trace_header =
    "epoch" ∷ "phase" ∷ "page_va" ∷ "current_node" ∷ "accessed" ∷ "access_count"
    ∷ "smooth_frequency" ∷ "momentum" ∷ "migration_history" ∷ "epochs_since_access" ∷ "hot_ratio"
    ∷ "access_frequency_ratio" ∷ "epoch_density" ∷ "aci" ∷ "parse_time_ms" ∷ []

-- A value in a line of the trace; `hex` is printed with `0x`, and a `flag` as 0 or 1.
pub data TraceCell (D : Type 0) : Type 0 where
  int : ℤ → TraceCell D
  hex : ℕ → TraceCell D
  flag : Bool → TraceCell D
  real : D → TraceCell D

module _ {D : Type 0} (epoch : ℕ) (current_phase : ℤ) (density parse_ms : D) where
  unfoldable pub trace_line : PageMetadata D → List (TraceCell D)
  trace_line pm =
      TraceCell.int (pos epoch)
      ∷ TraceCell.int current_phase
      ∷ TraceCell.hex pm.page_va
      ∷ TraceCell.int pm.current_node
      ∷ TraceCell.flag pm.accessed_this_epoch
      ∷ TraceCell.int pm.access_count
      ∷ TraceCell.real pm.smooth_frequency
      ∷ TraceCell.real pm.momentum
      ∷ TraceCell.int (pos pm.migration_history)
      ∷ TraceCell.int (pos pm.epochs_since_access)
      ∷ TraceCell.real pm.hot_ratio
      ∷ TraceCell.real pm.access_frequency_ratio
      ∷ TraceCell.real density
      ∷ TraceCell.real pm.aci
      ∷ TraceCell.real parse_ms
      ∷ []

  unfoldable pub trace_lines : OrderedMap (PageMetadata D) → List (List (TraceCell D))
  trace_lines [] = []
  trace_lines ((va, pm) ∷ pages) = trace_line pm ∷ trace_lines pages

  -- The trace has a line for each tracked page, with a value for each name of the header.
  pub trace_lines-trace_header :
      (pages : OrderedMap (PageMetadata D))
      → (length (trace_lines pages) ≡ length pages)
        × All (λ line. length line ≡ length trace_header) (trace_lines pages)
  unfolding trace_lines trace_line
  trace_lines-trace_header [] = (refl, tt)
  trace_lines-trace_header ((va, pm) ∷ pages) =
      let (same, lines) = trace_lines-trace_header pages in (ap suc same, (refl, lines))
