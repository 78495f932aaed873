-- ===== src/TierManager/Accesses/Epoch.antt =====
-- The whole of `detect_accesses`: the epoch's counts, and the order of the tracked pages.
use mathlib.Core.Option
use os_research_codebase.Prelude.{
  ℕ, ◌≡◌, refl, ◌∙◌, ap, true, false, List, Option, none, some, ℤ, pos, ◌==ℤ◌, sym, arith,
}
use os_research_codebase.Float.{Float}
use os_research_codebase.Config.{Config}
use os_research_codebase.OrderedMap.{
  OrderedMap, find, update_all, IsAscending, update_all-IsAscending,
}
use os_research_codebase.Page.{
  PageMetadata, PageSample, start_epoch, decay, rate_hot, rate_frequency, rate_aci,
}
use os_research_codebase.TierManager.{TierManager}
use os_research_codebase.TierManager.Accesses.{rate_pages, detect_accesses}
use os_research_codebase.TierManager.Accesses.Pages.{find-update_all}
use os_research_codebase.TierManager.Accesses.Hits.{
  sum_where, sum_where-ext, record_samples-sums, record_samples-Synced,
}
use os_research_codebase.TierManager.Migration.Counts.{fast_count, is_on_fast}
use os_research_codebase.TierManager.Invariant.{
  IsKeyed, Synced, update_all-IsKeyed, update_all-fast_count,
}

module _ {D : Type 0} ⦃f : Float D⦄ where
  -- The map is in order, with `n` pages on the fast node.
  abbrev InOrder : ℕ → OrderedMap (PageMetadata D) → Type 0
  InOrder n pages = IsAscending pages × IsKeyed pages × (n ≡ fast_count pages)

  -- An update that keeps the address and the node keeps that.
  update_all-InOrder :
      (g : PageMetadata D → PageMetadata D) (n : ℕ) (pages : OrderedMap (PageMetadata D))
      → ((m : PageMetadata D) → (g m).page_va ≡ m.page_va)
      → ((m : PageMetadata D) → (g m).current_node ≡ m.current_node)
      → InOrder n pages
      → InOrder n (update_all g pages)
  update_all-InOrder g n pages va node (a, k, c) = (
    update_all-IsAscending g pages a,
    update_all-IsKeyed g va pages k,
    c ∙ sym (update_all-fast_count g node pages),
  )

  pub decay-page_va : (m : PageMetadata D) → (decay m).page_va ≡ m.page_va
  unfolding decay
  decay-page_va m = ground arith

  decay-current_node : (m : PageMetadata D) → (decay m).current_node ≡ m.current_node
  unfolding decay
  decay-current_node m = ground arith

  rated-InOrder :
      (mean max_sf density : D) (n : ℕ) (pages : OrderedMap (PageMetadata D))
      → InOrder n pages
      → InOrder n (
          update_all (rate_aci density) (
            update_all
              (rate_frequency max_sf)
              (update_all (rate_hot mean) (update_all decay pages))))
  unfolding rate_aci rate_frequency rate_hot
  rated-InOrder mean max_sf density n pages y =
      update_all-InOrder _ n _ (λ m. refl) (λ m. refl)
        (update_all-InOrder _ n _ (λ m. refl) (λ m. refl)
          (update_all-InOrder _ n _ (λ m. refl) (λ m. refl)
            (update_all-InOrder decay n pages decay-page_va decay-current_node y)))

  rate_pages-Synced : (mgr : TierManager D) → Synced mgr → Synced (rate_pages mgr)
  unfolding rate_pages
  rate_pages-Synced mgr y =
      let (a, k, c) =
        rated-InOrder _ _ _ mgr.fast_tier_count mgr.pages_meta (y.ascending, y.keyed, y.counted) in
      record { ascending = a; keyed = k; counted = c }

  module _ (cfg : Config) (now : ℤ) (samples : List (ℕ × PageSample D)) (mgr : TierManager D)
      (apart : (cfg.slow_node ==ℤ pos 0) ≡ false) where
    abbrev started : TierManager D
    started = record mgr {
      pages_meta = update_all start_epoch mgr.pages_meta;
      epoch_accesses = pos 0;
      epoch_hits = pos 0;
    }

    started-Synced : Synced mgr → Synced started
    unfolding start_epoch
    started-Synced y =
        let (a, k, c) =
          update_all-InOrder start_epoch mgr.fast_tier_count mgr.pages_meta (λ m. refl) (λ m. refl)
            (y.ascending, y.keyed, y.counted) in
        record { ascending = a; keyed = k; counted = c }

    -- Where the slow node is not node 0, the sampling of an epoch keeps the pages in order, under
    -- their own addresses, and the count of the fast tier right.
    pub detect_accesses-Synced : Synced mgr → Synced (detect_accesses cfg now samples mgr)
    unfolding detect_accesses
    detect_accesses-Synced y =
        rate_pages-Synced _ (record_samples-Synced cfg now apart samples started (started-Synced y))

    started-is_on_fast :
        (va : ℕ) → is_on_fast (find va started.pages_meta) ≡ is_on_fast (find va mgr.pages_meta)
    unfolding start_epoch
    started-is_on_fast va =
        ap is_on_fast (find-update_all start_epoch va mgr.pages_meta)
        ∙ kept (find va mgr.pages_meta)
      where
        kept : (o : Option (PageMetadata D)) → is_on_fast (Option.map start_epoch o) ≡ is_on_fast o
        kept none = refl
        kept (some m) = refl

    -- Where the slow node is not node 0, the epoch's accesses are the sum of the samples, and its hits the sum of those of the pages
    -- that were on the fast node before.
    pub detect_accesses-sums :
        ((detect_accesses cfg now samples mgr).epoch_accesses
          ≡ sum_where (λ va. true) (pos 0) samples)
        × ((detect_accesses cfg now samples mgr).epoch_hits
            ≡ sum_where (λ va. is_on_fast (find va mgr.pages_meta)) (pos 0) samples)
    unfolding detect_accesses rate_pages
    detect_accesses-sums =
        let sums = record_samples-sums cfg now apart samples started in
        (sums.0, sums.1 ∙ sum_where-ext _ _ started-is_on_fast (pos 0) samples)
