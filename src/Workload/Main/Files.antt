-- ===== src/Workload/Main/Files.antt =====
-- What the file holds in the course of `main` of workload/workload.cpp.
use mathlib.Core.Option
use os_research_codebase.Prelude.{
  ℕ, ◌≡◌, refl, sym, ◌∙◌, ap, some_inj, List, [], ◌∷◌, ◌++◌, map, Option, none, some, ℤ, pos,
  negsuc, Bool, true, false,
}
use os_research_codebase.Float.{Float}
use os_research_codebase.Config.{total_pages}
use os_research_codebase.Daemon.Epoch.{WorkloadInfo}
use os_research_codebase.Workload.Info.{
  Streams, ReadsBack, update_shared_info, read_workload_info, read_workload_info-update_shared_info,
}
use os_research_codebase.Workload.Main.{
  Process, Progress, announce, perform, perform_all, clean_up, run_workload,
}

-- What the workload publishes in a phase.
abbrev pub told : ℤ → ℕ → ℤ → WorkloadInfo
told pid base phase = record {
  pid = pid;
  base_address = base;
  total_pages = pos total_pages;
  current_phase = phase;
}

-- The phases that are published: the start, the six, and the end.
abbrev pub phases : List ℤ
phases = pos 0 ∷ pos 1 ∷ pos 2 ∷ pos 3 ∷ pos 4 ∷ pos 5 ∷ pos 6 ∷ negsuc 0 ∷ []

module _ {S W : Type 0} (io : Streams S W) where
  abbrev pub written : ℤ → ℕ → ℤ → Option (List W)
  written pid base phase = some (update_shared_info io (told pid base phase) phase).1

  -- What the daemon reads, `file` being what the file holds.
  abbrev pub heard : WorkloadInfo → Option (List W) → WorkloadInfo × Bool
  heard old file = read_workload_info io (Option.map io.opened file) old

  pub heard-written :
      ReadsBack io
      → (old : WorkloadInfo) (pid : ℤ) (base : ℕ) (phase : ℤ)
      → heard old (written pid base phase) ≡ (told pid base phase, true)
  unfolding update_shared_info
  heard-written back old pid base phase =
      read_workload_info-update_shared_info io back (told pid base phase) old phase

  heard_all :
      ReadsBack io
      → (old : WorkloadInfo) (pid : ℤ) (base : ℕ) (ks : List ℤ)
      → map (heard old) (map (written pid base) ks ++ none ∷ [])
        ≡ map (λ phase. (told pid base phase, true)) ks ++ (old, false) ∷ []
  unfolding read_workload_info
  heard_all back old pid base [] = refl
  heard_all back old pid base (k ∷ ks) =
      rw (heard-written back old pid base k)
        (ap (λ rest. (told pid base k, true) ∷ rest) (heard_all back old pid base ks))

  module _ {D : Type 0} ⦃f : Float D⦄ (pow : D → D → D) (p : Process D) where
    files_of :
        (base : ℕ)
        → p.base_addr ≡ some base
        → Option.map (λ s. s.files) (run_workload io pow p)
          ≡ some (map (written p.pid base) phases ++ none ∷ [])
    unfolding run_workload announce perform perform_all clean_up update_shared_info
    files_of base mapped = rw (mapped, run_workload)

    pub run_workload-files_lem :
        (base : ℕ) (s : Progress W)
        → p.base_addr ≡ some base
        → run_workload io pow p ≡ some s
        → s.files ≡ map (written p.pid base) phases ++ none ∷ []
    run_workload-files_lem base s mapped e =
        some_inj (sym (ap (Option.map (λ t. t.files)) e) ∙ files_of base mapped)

    -- If what is written on a line is read back and the workload gets its memory, the daemon
    -- reads from the file, as the workload leaves it one time after another, the workload's
    -- state with the phases 0, 1 to 6 and -1, each as valid, and at last, when the file is
    -- removed, nothing.
    pub run_workload-heard :
        ReadsBack io
        → (base : ℕ) (s : Progress W) (old : WorkloadInfo) → p.base_addr ≡ some base
        → run_workload io pow p ≡ some s
        → map (heard old) s.files
          ≡ map (λ phase. (told p.pid base phase, true)) phases ++ (old, false) ∷ []
    run_workload-heard back base s old mapped e =
        ap (map (heard old)) (run_workload-files_lem base s mapped e)
        ∙ heard_all back old p.pid base phases
