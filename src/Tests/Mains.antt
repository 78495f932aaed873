-- ===== src/Tests/Mains.antt =====
-- The two programs as wholes, at concrete inputs.
use os_research_codebase.Workload.Phases.{Phase, region, Within, touched_page}
use os_research_codebase.Config.{default_config}
use os_research_codebase.Sampler.Recording.{start_recording, nothing_open, attach_all}
use mathlib.Core.Option
use Prim.Native.String.{String}
use os_research_codebase.Prelude.{
  ◌≡◌, refl, true, false, List, [], ◌∷◌, ◌++◌, map, Option, none, some, ℤ, pos, negsuc, inr, Bool,
  get_elem?, arith,
}
use os_research_codebase.Float.Fixed.{fixed}
use os_research_codebase.Sorting.{insertion_sorter}
use os_research_codebase.Policy.Dispatch.{Policy, get_policy, set_policy_fill_threshold}
use os_research_codebase.Sampler.Regions.{VmRegion, discover_workload_regions, tracked_regions}
use os_research_codebase.Workload.Info.{update_shared_info}
use os_research_codebase.Workload.Main.{
  Process, Progress, run_workload, perform_all, perform, announce, clean_up, zipf_cdf,
  zipf_cdf-touched_page-Within,
}
use os_research_codebase.Workload.Main.Files.{told, phases, heard, run_workload-heard}
use os_research_codebase.Daemon.Options.{Readers, default_options, configured, ready, start}
use os_research_codebase.Daemon.Main.{
  Round, Machine, nothing_printed, exits, main_loop, first_loop, run_main, Printed,
}
use os_research_codebase.Daemon.Main.Ends.{run_main_ends}
use os_research_codebase.System.{run_main-run_workload}
use os_research_codebase.Tests.Samples.{by_page, by_score, around}
use os_research_codebase.Tests.Generator.{
  Word, by_line, by_line-ReadsBack, running, unknown, last_draw,
}
use os_research_codebase.Tests.Rounds.{unheard, final}

abbrev pub two_numbers : Readers ℤ
two_numbers = record { stoi = λ word. some (pos 7); stod = λ word. none }

abbrev pub words : List String
words = "lru" ∷ "--pid" ∷ "7" ∷ []

-- A machine whose user is root or not, that gives `files` at the polls and then the rounds.
abbrev pub machine :
    Bool → List (Option (List Word)) → List (Round ℤ (List Word)) → Machine ℤ (List Word)
machine is_root files rounds = record {
  uninitialised = unknown;
  is_root = is_root;
  polls = files;
  maps = some (record { matched = 7; start = 4096; end = 8392704; perms = "rw-p"; inode = 0 } ∷ []);
  loaded = true;
  cpus = record { fd = some 6; link = some 1 } ∷ [];
  trace_opens = true;
  rounds = rounds;
}

pub started : start two_numbers words ≡ ready (pos 7) default_options Policy.lru
unfolding start default_options configured get_policy set_policy_fill_threshold fixed
started = refl

regions_found :
    (discover_workload_regions (insertion_sorter VmRegion) (machine true [] []).maps).1 ≡ true
unfolding discover_workload_regions tracked_regions
regions_found = refl

recording_started :
    (start_recording true (record { fd = some 6; link = some 1 } ∷ []) nothing_open).1 ≡ true
unfolding start_recording attach_all
recording_started = refl

abbrev no_lines : Printed ℤ
no_lines = nothing_printed

abbrev no_settings : List Bool
no_settings = []

refused :
    run_main by_line by_page by_score two_numbers
      (insertion_sorter VmRegion)
      (machine false [] [])
      words
    ≡ exits 1 no_lines no_settings
unfolding run_main start default_options configured get_policy set_policy_fill_threshold fixed
refused = refl

run_main_ends_example :
    run_main by_line by_page by_score two_numbers
      (insertion_sorter VmRegion)
      (machine true
        (none ∷ some (by_line.opened (update_shared_info by_line running (pos 1)).1) ∷ [])
        (unheard ∷ final ∷ []))
      words
    ≡ exits 0
        (main_loop by_line by_page by_score default_config default_options.epoch_interval_ms false
          (unheard ∷ [])
          (first_loop by_line by_page by_score
            (update_shared_info by_line running (pos 1)).0
            Policy.lru)).1
        (false ∷ true ∷ [])
unfolding default_options
run_main_ends_example =
    run_main_ends by_line by_page by_score two_numbers (insertion_sorter VmRegion)
      (machine true
        (none ∷ some (by_line.opened (update_shared_info by_line running (pos 1)).1) ∷ [])
        (unheard ∷ final ∷ []))
      by_line-ReadsBack words (pos 7) default_options Policy.lru (none ∷ []) [] (unheard ∷ []) []
      final running (pos 1) started refl refl refl refl regions_found recording_started refl
      (inr (running, negsuc 0, refl, refl))

-- A workload whose phases last three rounds each.
abbrev workload : Process ℤ
workload = record {
  pid = pos 7;
  base_addr = some 4096;
  shuffle = λ xs. xs;
  draws = λ phase touches. last_draw;
  rounds = λ phase. 3;
}

abbrev base_only : ℤ → ℤ → ℤ
base_only x y = x

abbrev ran : Option (Progress Word) → Progress Word
ran none = record { info = unknown; memory = λ page. 0; files = [] }
ran (some s) = s

abbrev finished : Progress Word
finished = ran (run_workload by_line base_only workload)

finished_lem : run_workload by_line base_only workload ≡ some finished
unfolding run_workload
finished_lem = refl

run_workload-heard_example :
    map (heard by_line unknown) finished.files
    ≡ map (λ phase. (told (pos 7) 4096 phase, true)) phases ++ (unknown, false) ∷ []
run_workload-heard_example =
    run_workload-heard by_line base_only workload by_line-ReadsBack 4096 finished unknown refl
      finished_lem

-- The file as the workload leaves it in its second phase and at the end.
abbrev in_phase : ℤ → Option (List Word)
in_phase phase = some (update_shared_info by_line (told (pos 7) 4096 phase) phase).1

abbrev found_late : Round ℤ (List Word)
found_late = record {
  file = Option.map by_line.opened (in_phase (negsuc 0));
  parse_ms = pos 0;
  env = around;
}

second_file : get_elem? finished.files 2 ≡ some (in_phase (pos 2))
unfolding run_workload perform_all perform announce clean_up update_shared_info
second_file = refl

last_file : get_elem? finished.files 7 ≡ some (in_phase (negsuc 0))
unfolding run_workload perform_all perform announce clean_up update_shared_info
last_file = refl

run_main-run_workload_example :
    run_main by_line by_page by_score two_numbers
      (insertion_sorter VmRegion)
      (machine true
        (none ∷ Option.map by_line.opened (in_phase (pos 2)) ∷ [])
        (unheard ∷ found_late ∷ []))
      words
    ≡ exits 0
        (main_loop by_line by_page by_score default_config default_options.epoch_interval_ms false
          (unheard ∷ [])
          (first_loop by_line by_page by_score (told (pos 7) 4096 (pos 2)) Policy.lru)).1
        (false ∷ true ∷ [])
unfolding default_options
run_main-run_workload_example =
    run_main-run_workload by_line base_only workload by_page by_score two_numbers
      (insertion_sorter VmRegion)
      (machine true (none ∷ Option.map by_line.opened (in_phase (pos 2)) ∷ [])
        (unheard ∷ found_late ∷ []))
      by_line-ReadsBack 4096 finished refl finished_lem words (pos 7) default_options Policy.lru
      (none ∷ []) [] (unheard ∷ []) [] found_late 2 (in_phase (pos 2)) (in_phase (negsuc 0)) started
      refl (omega arith) second_file last_file refl regions_found recording_started refl refl

zipf_cdf-touched_page-Within_example :
    Within (region Phase.new_data) (touched_page (zipf_cdf base_only) [] Phase.new_data last_draw 5)
zipf_cdf-touched_page-Within_example =
    zipf_cdf-touched_page-Within base_only [] Phase.new_data last_draw 5
