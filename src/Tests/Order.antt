-- ===== src/Tests/Order.antt =====
-- The order of the samples, and the pointer chase, at concrete inputs.
use mathlib.Core.List.{Permᴰ}
use mathlib.Core.Option
use mathlib.Core.Quot
use os_research_codebase.Prelude.{
  ◌+◌, ◌/◌, ◌%◌, ◌≡◌, refl, List, [], ◌∷◌, ℕ, ℤ, pos, true, take, arith,
}
use os_research_codebase.Float.Fixed.{fixed}
use os_research_codebase.Config.{total_pages}
use os_research_codebase.TierManager.Accesses.{detect_accesses}
use os_research_codebase.OrderedMap.{find}
use os_research_codebase.Page.{start_epoch, decay}
use os_research_codebase.TierManager.Accesses.Pages.{own_features, after_sample}
use os_research_codebase.TierManager.Accesses.Unordered.{
  Listing, UnorderedMap, ℤ-IsSet, sample_at, sum_of, detect_unordered, detect_unordered_lem,
}
use os_research_codebase.TierManager.Migration.Counts.{is_on_fast}
use os_research_codebase.Workload.Phases.{Phase, run_phase}
use os_research_codebase.Workload.Main.{indices}
use os_research_codebase.Workload.Chase.{visits, run_phase-pointer_chase}
use os_research_codebase.Tests.Samples.{busy, small, sample_of, some_samples}
use os_research_codebase.Tests.Generator.{flat_cdf, last_draw}

-- The map that two samples make up, in either order.
abbrev two_samples : UnorderedMap ℤ
two_samples = Quot.mk (record { entries = some_samples; distinct = ((refl, tt), (tt, tt)) })

same_map :
    two_samples
    ≡ Quot.mk (record {
      entries = (16384, sample_of 2) ∷ (4096, sample_of 5) ∷ [];
      distinct = ((refl, tt), (tt, tt));
    })
same_map = Quot.sound (Permᴰ.swap refl refl)

detect_unordered_lem_example :
    ((l : Listing ℤ)
      → detect_unordered ℤ-IsSet small (pos 9) (Quot.mk l) busy
        ≡ detect_accesses small (pos 9) l.entries busy)
    × (Option.map own_features
          (find 16384 (detect_unordered ℤ-IsSet small (pos 9) two_samples busy).pages_meta)
        ≡ Option.map
            (λ m. own_features (decay m))
            (after_sample small
              (pos 9)
              16384
              (sample_at ℤ-IsSet 16384 two_samples)
              (Option.map start_epoch (find 16384 busy.pages_meta))))
    × ((detect_unordered ℤ-IsSet small (pos 9) two_samples busy).epoch_accesses
        ≡ sum_of ℤ-IsSet (λ u. true) two_samples)
    × ((detect_unordered ℤ-IsSet small (pos 9) two_samples busy).epoch_hits
        ≡ sum_of ℤ-IsSet (λ u. is_on_fast (find u busy.pages_meta)) two_samples)
detect_unordered_lem_example =
    detect_unordered_lem ℤ-IsSet small (pos 9) refl two_samples busy 16384

-- The indices with the first two exchanged.
abbrev exchanged : List ℕ
exchanged = 1 ∷ 0 ∷ indices 2046 2

exchanged-Permᴰ : Permᴰ exchanged (indices total_pages 0)
exchanged-Permᴰ = Permᴰ.swap refl refl

run_phase-pointer_chase_example :
    run_phase flat_cdf exchanged Phase.pointer_chase (λ i. last_draw) 5000 0 (λ page. 1) 7
    ≡ (1 + 5000 / total_pages + visits 7 (take (5000 % total_pages) exchanged)) % 256
run_phase-pointer_chase_example =
    run_phase-pointer_chase flat_cdf exchanged 7 (λ i. last_draw) 5000 (λ page. 1) exchanged-Permᴰ
      (omega arith) (omega arith)
