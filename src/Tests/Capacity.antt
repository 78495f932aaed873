-- ===== src/Tests/Capacity.antt =====
-- Two rounds of the main loop beside a kernel that moves the pages back between the rounds.
use os_research_codebase.Prelude.{
  ℕ, ◌+◌, ◌≤◌, ◌≡◌, refl, ◌∙◌, true, List, [], ◌∷◌, map, none, ℤ, pos, arith, length-map,
}
use os_research_codebase.Float.Fixed.{fixed}
use os_research_codebase.TierManager.{TierManager, Kernel}
use os_research_codebase.Daemon.Main.{Round, main_loop}
use os_research_codebase.Daemon.Main.Capacity.{
  AsRecorded, found_fast, all_failed, main_loop-capacity,
}
use os_research_codebase.Tests.Samples.{small, by_page, by_score, around}
use os_research_codebase.Tests.Tracking.{busy-Synced}
use os_research_codebase.Tests.Generator.{Word, by_line}
use os_research_codebase.Tests.Rounds.{under_way, lru_sorts}

-- It moves every page, but finds every page on node 1.
abbrev pulling_back : Kernel ℤ
pulling_back = record {
  query = λ addrs status. record { ret = pos 0; status = map (λ a. pos 1) addrs };
  move = λ addrs nodes status. record { ret = pos 0; status = nodes };
  latency = λ addrs. pos 1000;
}

none_found : (addrs : List ℕ) → found_fast (map (λ a. pos 1) addrs) ≡ 0
none_found [] = refl
none_found (a ∷ addrs) = none_found addrs

recorded : (mgr : TierManager ℤ) → AsRecorded pulling_back mgr
recorded mgr = record {
  answered = refl;
  complete =
      length-map (λ a. pos 1) (map (λ e. e.0) mgr.pages_meta)
      ∙ length-map (λ e. e.0) mgr.pages_meta;
  no_more = omega (arith, none_found (map (λ e. e.0) mgr.pages_meta));
}

abbrev pulled : Round ℤ (List Word)
pulled = record {
  file = none;
  parse_ms = pos 0;
  env = record around { kernel_before = pulling_back; kernel_after = pulling_back };
}

main_loop-capacity_example :
    (main_loop by_line by_page by_score small
      (pos 0)
      true
      (pulled ∷ pulled ∷ [])
      under_way).0.mgr.fast_tier_count
    ≤ 1
      + all_failed by_page by_score small refl by_line (pos 0) true (pulled ∷ pulled ∷ []) under_way
main_loop-capacity_example =
    main_loop-capacity by_page by_score small refl by_line (pos 0) true (pulled ∷ pulled ∷ [])
      under_way busy-Synced
      (λ loop line e. (
        record { before = recorded _; sorts = tt; after = recorded _ },
        λ loop' line' e'. (
          record { before = recorded _; sorts = lru_sorts _ _ loop line e; after = recorded _ },
          tt,
        ),
      ))
