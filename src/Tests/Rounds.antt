-- ===== src/Tests/Rounds.antt =====
-- Rounds of the main loop, at concrete inputs.
use os_research_codebase.Prelude.{
  ◌≡◌, refl, true, List, [], ◌∷◌, Option, none, some, ℤ, pos, negsuc, length-replicate, inr,
  length-map, ◌∙◌,
}
use os_research_codebase.Float.Fixed.{fixed}
use os_research_codebase.TierManager.Invariant.{Synced}
use os_research_codebase.TierManager.Tidy.{Tidy, Synced-Tidy}
use os_research_codebase.Policy.Dispatch.{Policy, execute}
use os_research_codebase.Workload.Info.{update_shared_info}
use os_research_codebase.Daemon.Epoch.{Surroundings, Loop, Cell, epoch_step}
use os_research_codebase.Daemon.Main.{Round, main_loop}
use os_research_codebase.Daemon.Main.Rounds.{
  RoundSorts, epoch_step-policy, placed, epoch_step-Synced, main_loop-Tidy,
}
use os_research_codebase.Daemon.Main.Stops.{main_loop_stops}
use os_research_codebase.Tests.Samples.{busy, small, by_page, by_score, around, quiet_info}
use os_research_codebase.Tests.Tracking.{busy-Synced}
use os_research_codebase.Tests.Generator.{Word, by_line, by_line-ReadsBack, running}

busy-Tidy : Tidy busy
busy-Tidy = Synced-Tidy busy busy-Synced

abbrev pub under_way : Loop ℤ
under_way = record {
  epoch = 3;
  info = quiet_info;
  last_phase = pos 1;
  mgr = busy;
  policy = Policy.lru;
}

-- What the round leaves.
abbrev stepped : Option (Loop ℤ × List (Cell ℤ)) → Loop ℤ × List (Cell ℤ)
stepped none = (under_way, [])
stepped (some r) = r

abbrev next : Loop ℤ × List (Cell ℤ)
next = stepped (epoch_step by_page by_score small around under_way)

next_lem : epoch_step by_page by_score small around under_way ≡ some (next.0, next.1)
unfolding epoch_step
next_lem = refl

epoch_step-Synced_example : Synced next.0.mgr
epoch_step-Synced_example =
    epoch_step-Synced by_page by_score small around under_way next.0 next.1 busy-Tidy tt next_lem
      refl
      (length-replicate _ (pos 0)
        ∙ length-map (λ e. e.0) (placed by_page by_score small around under_way).pages_meta)

-- After a round of LRU the policy is LRU, which needs nothing of its sorts.
pub lru_sorts :
    (env env' : Surroundings ℤ) (loop' : Loop ℤ) (line : List (Cell ℤ))
    → epoch_step by_page by_score small env under_way ≡ some (loop', line)
    → RoundSorts by_page by_score small env' loop'
unfolding execute
lru_sorts env env' loop' line e =
    rw (epoch_step-policy by_page by_score small env under_way loop' line e) tt

-- A round in which the file is not there, and one that finds the last.
abbrev pub unheard : Round ℤ (List Word)
unheard = record { file = none; parse_ms = pos 0; env = around }

abbrev pub final : Round ℤ (List Word)
final = record {
  file = some (by_line.opened (update_shared_info by_line running (negsuc 0)).1);
  parse_ms = pos 0;
  env = around;
}

main_loop-Tidy_example :
    Tidy
      (main_loop by_line by_page by_score small (pos 0) true (unheard ∷ final ∷ []) under_way).0.mgr
main_loop-Tidy_example =
    main_loop-Tidy by_page by_score small by_line (pos 0) true (unheard ∷ final ∷ []) under_way
      busy-Tidy (λ loop line e. (tt, λ loop' line' e'. (lru_sorts _ _ loop line e, tt)))

main_loop_stops_example :
    main_loop by_line by_page by_score small (pos 0) true (unheard ∷ final ∷ unheard ∷ []) under_way
    ≡ main_loop by_line by_page by_score small (pos 0) true (unheard ∷ []) under_way
main_loop_stops_example =
    main_loop_stops by_page by_score small by_line (pos 0) true by_line-ReadsBack (unheard ∷ [])
      final (unheard ∷ []) under_way (inr (running, negsuc 0, refl, refl))
