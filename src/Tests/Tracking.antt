-- ===== src/Tests/Tracking.antt =====
-- The tier manager on three pages.
use mathlib.Core.Option
use os_research_codebase.Prelude.{◌+◌, ◌≡◌, refl, true, [], ◌∷◌, pos, arith}
use os_research_codebase.Float.Fixed.{fixed}
use os_research_codebase.OrderedMap.{find}
use os_research_codebase.TierManager.Accesses.{detect_accesses}
use os_research_codebase.TierManager.Accesses.Pages.{own_features}
use os_research_codebase.TierManager.Accesses.Described.{page_after, detect_accesses-page_after}
use os_research_codebase.TierManager.Accesses.Hits.{sum_where}
use os_research_codebase.TierManager.Accesses.Epoch.{detect_accesses-Synced, detect_accesses-sums}
use os_research_codebase.TierManager.Nodes.{update_page_nodes}
use os_research_codebase.TierManager.Nodes.Refresh.{
  both, statuses, query_reply, update_page_nodes-fate,
}
use os_research_codebase.TierManager.Migration.{migrate_pages}
use os_research_codebase.TierManager.Migration.Counts.{is_on_fast, OnFast}
use os_research_codebase.TierManager.Migration.Effects.{
  Promoted, Demoted, migrate_pages-Promoted, migrate_pages-Demoted,
}
use os_research_codebase.TierManager.Migration.Failure.{failed_promotion}
use os_research_codebase.TierManager.Invariant.{Synced}
use os_research_codebase.Tests.Samples.{busy, small, willing, refusing, some_samples}

pub busy-Synced : Synced busy
busy-Synced = record { ascending = omega arith; keyed = (refl, (refl, (refl, tt))); counted = refl }

detect_accesses-page_after_example :
    Option.map own_features
      (find 16384 (detect_accesses small (pos 9) some_samples busy).pages_meta)
    ≡ page_after small (pos 9) 16384 (find 16384 some_samples) (find 16384 busy.pages_meta)
detect_accesses-page_after_example =
    detect_accesses-page_after small (pos 9) 16384 some_samples busy ((refl, tt), (tt, tt))

detect_accesses-sums_example :
    ((detect_accesses small (pos 9) some_samples busy).epoch_accesses
      ≡ sum_where (λ va. true) (pos 0) some_samples)
    × ((detect_accesses small (pos 9) some_samples busy).epoch_hits
        ≡ sum_where (λ va. is_on_fast (find va busy.pages_meta)) (pos 0) some_samples)
detect_accesses-sums_example = detect_accesses-sums small (pos 9) some_samples busy refl

detect_accesses-Synced_example : Synced (detect_accesses small (pos 9) some_samples busy)
detect_accesses-Synced_example =
    detect_accesses-Synced small (pos 9) some_samples busy refl busy-Synced

update_page_nodes-fate_example :
    find 8192 (update_page_nodes willing busy).pages_meta
    ≡ both
        (find 8192 (statuses (query_reply willing busy).status busy.pages_meta))
        (find 8192 busy.pages_meta)
update_page_nodes-fate_example = update_page_nodes-fate willing busy 8192 (omega arith) refl refl

migrate_pages-Promoted_example : Promoted willing busy (8192 ∷ [])
migrate_pages-Promoted_example = migrate_pages-Promoted willing busy (8192 ∷ []) (omega arith)

busy-OnFast : OnFast busy.pages_meta 4096
unfolding find
busy-OnFast = refl

migrate_pages-Demoted_example : Demoted willing busy (4096 ∷ []) (pos 1)
migrate_pages-Demoted_example =
    migrate_pages-Demoted willing busy (4096 ∷ []) (pos 1) refl (omega arith) (tt, tt)
      (busy-OnFast, tt)

failed_promotion_example :
    (migrate_pages refusing (8192 ∷ 12288 ∷ []) (pos 0) busy).epoch_promotions ≡ 0 + 2
failed_promotion_example = failed_promotion refusing busy (8192 ∷ 12288 ∷ []) refl
