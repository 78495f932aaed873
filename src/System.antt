-- ===== src/System.antt =====
-- The daemon and the workload together: daemon/daemon.cpp on the file of workload/workload.cpp.
pub mod Traced
use mathlib.Core.Option
use Prim.Native.String.{String}
use os_research_codebase.Prelude.{
  ℕ, zero, suc, ◌+◌, ◌<◌, inr, ◌≡◌, refl, sym, ◌∙◌, ap, true, false, ◌&&◌, List, [], ◌∷◌, ◌++◌, map,
  Option, none, some, ℤ, pos, negsuc, get_elem?, some_inj, arith,
}
use os_research_codebase.Float.{Float}
use os_research_codebase.Page.{PageMetadata}
use os_research_codebase.Sorting.{Sorter}
use os_research_codebase.Policy.Scored.{ScoredPage}
use os_research_codebase.Policy.Dispatch.{Policy}
use os_research_codebase.Sampler.Regions.{VmRegion, discover_workload_regions}
use os_research_codebase.Sampler.Recording.{nothing_open, start_recording}
use os_research_codebase.Workload.Info.{Streams, ReadsBack, update_shared_info}
use os_research_codebase.Workload.Main.{Process, Progress, indices, run_workload}
use os_research_codebase.Workload.Main.Files.{told, phases, written, run_workload-files_lem}
use os_research_codebase.Daemon.Options.{Readers, Options, ready, start}
use os_research_codebase.Daemon.Main.{Round, Machine, exits, main_loop, first_loop, run_main}
use os_research_codebase.Daemon.Main.Ends.{missing, run_main_ends}

get_elem?-indices :
    {A : Type 0} (g : ℤ → A) (n i k : ℕ) (rest : List A)
    → k < n
    → get_elem? (map (λ j. g (pos j)) (indices n i) ++ rest) k ≡ some (g (pos (i + k)))
get_elem?-indices g zero i k rest h = absurd (omega (arith, h))
get_elem?-indices g (suc n) i zero rest h = ap (λ j. some (g (pos j))) (omega arith)
get_elem?-indices g (suc n) i (suc k) rest h =
    get_elem?-indices g n (suc i) k rest (omega (arith, h))
    ∙ ap (λ j. some (g (pos j))) (omega arith)

module _ {S W : Type 0} (io : Streams S W) {D : Type 0} ⦃f : Float D⦄ (pow : D → D → D)
    (p : Process D) (pages : Sorter (PageMetadata D)) (scored : Sorter (ScoredPage D))
    (readers : Readers D) (vmas : Sorter VmRegion) (m : Machine D S) where
  -- Let what is written on a line be read back, and let the workload get its memory. A daemon
  -- whose arguments are in order, run by root, that after polls that find no file finds it as the
  -- workload leaves it between its start and its sixth phase, finds the memory and starts to
  -- record, begins with the state published then. It ends with the code 0, at the latest, in a
  -- round that finds the file as it is after the last phase: it has printed what the rounds
  -- before made, and has turned the kernel's balancing off and on again.
  pub run_main-run_workload :
      ReadsBack io
      → (base : ℕ) (s : Progress W) → p.base_addr ≡ some base
      → run_workload io pow p ≡ some s
      → (args : List String) (pid : ℤ) (o : Options D) (policy : Policy D)
        (early more : List (Option S)) (before after : List (Round D S)) (r : Round D S) (k : ℕ)
        (first last : Option (List W))
      → start readers args ≡ ready pid o policy
      → m.is_root ≡ true
      → k < 7
      → get_elem? s.files k ≡ some first
      → get_elem? s.files 7 ≡ some last
      → m.polls ≡ missing early ++ Option.map io.opened first ∷ more
      → (discover_workload_regions vmas m.maps).1 ≡ true
      → (start_recording m.loaded m.cpus nothing_open).1 ≡ true
      → m.rounds ≡ before ++ r ∷ after
      → r.file ≡ Option.map io.opened last
      → run_main io pages scored readers vmas m args
        ≡ exits 0
            (main_loop io pages scored o.config o.epoch_interval_ms
              (o.trace_mode && m.trace_opens)
              before
              (first_loop io pages scored (told p.pid base (pos k)) policy)).1
            (false ∷ true ∷ [])
  unfolding update_shared_info
  run_main-run_workload back base s mapped run args pid o policy early more before after r k first
        last started root within at_k at_end polls found recording rounds file =
      run_main_ends io pages scored readers vmas m back args pid o policy early more before after r
        (told p.pid base (pos k)) (pos k) started root
        (polls ∙ ap (λ x. missing early ++ Option.map io.opened x ∷ more) is_first) (ground arith)
        refl found recording rounds
        (inr (told p.pid base (negsuc 0), negsuc 0, file ∙ ap (Option.map io.opened) is_last, refl))
    where
      held : s.files ≡ map (written io p.pid base) phases ++ none ∷ []
      held = run_workload-files_lem io pow p base s mapped run

      is_first : first ≡ written io p.pid base (pos k)
      is_first = some_inj (
          sym at_k
          ∙ ap (λ l. get_elem? l k) held
          ∙ get_elem?-indices (written io p.pid base) 7 0 k
              (written io p.pid base (negsuc 0) ∷ none ∷ []) within
          ∙ ap (λ j. some (written io p.pid base (pos j))) (omega arith))

      is_last : last ≡ written io p.pid base (negsuc 0)
      is_last = some_inj (sym at_end ∙ ap (λ l. get_elem? l 7) held)
