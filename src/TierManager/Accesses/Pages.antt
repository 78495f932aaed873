-- ===== src/TierManager/Accesses/Pages.antt =====
-- What `detect_accesses` makes of each page.
use mathlib.Core.Option
use os_research_codebase.Prelude.{
  ℕ, ◌≡◌, refl, ◌∙◌, ap, if◌then◌else◌, ◌==◌, List, [], ◌∷◌, map, Option, none, some, ℤ, pos, ◌==ℤ◌,
  arith,
}
use os_research_codebase.Float.{Float}
use os_research_codebase.Config.{Config}
use os_research_codebase.OrderedMap.{OrderedMap, find, update_all, find-insert}
use os_research_codebase.Sorting.{Distinct, AllValid, differs}
use os_research_codebase.Page.{
  PageMetadata, PageSample, start_epoch, touch, decay, rate_hot, rate_frequency, rate_aci,
}
use os_research_codebase.TierManager.{TierManager}
use os_research_codebase.TierManager.Accesses.{
  or_discovered, record_sample, record_samples, rate_pages, detect_accesses,
}

module _ {D : Type 0} ⦃f : Float D⦄ where
  -- The page without the three features that depend on all the pages.
  abbrev pub own_features : PageMetadata D → PageMetadata D
  own_features m = record m {
    hot_ratio = f.of_int (pos 0);
    access_frequency_ratio = f.of_int (pos 0);
    aci = f.of_int (pos 0);
  }

  -- A page after the loop over the samples, given its sample.
  unfoldable pub after_sample :
      Config → ℤ → ℕ → Option (PageSample D) → Option (PageMetadata D) → Option (PageMetadata D)
  after_sample cfg now va none o = o
  after_sample cfg now va (some s) o =
      if s.sample_count ==ℤ pos 0 then o else some (touch now s (or_discovered cfg va o))

  unsampled :
      (va : ℕ) (samples : List (ℕ × PageSample D))
      → AllValid (differs va) (map (λ e. e.0) samples)
      → find va samples ≡ none
  unfolding find
  unsampled va [] d = refl
  unsampled va ((u, s) ∷ rest) (d, ds) = ground (arith, unsampled va rest ds)

  find-record_sample :
      (cfg : Config) (now : ℤ) (va u : ℕ) (s : PageSample D) (mgr : TierManager D)
      → find va (record_sample cfg now (u, s) mgr).pages_meta ≡ (
          if va == u
          then after_sample cfg now va (some s) (find va mgr.pages_meta)
          else find va mgr.pages_meta)
  unfolding record_sample after_sample
  find-record_sample cfg now va u s mgr = ground (
    arith,
    find-insert va u (touch now s (or_discovered cfg u (find u mgr.pages_meta))) mgr.pages_meta,
  )

  pub find-record_samples :
      (cfg : Config) (now : ℤ) (va : ℕ) (samples : List (ℕ × PageSample D)) (mgr : TierManager D)
      → Distinct (map (λ e. e.0) samples)
      → find va (record_samples cfg now samples mgr).pages_meta
        ≡ after_sample cfg now va (find va samples) (find va mgr.pages_meta)
  unfolding record_samples find after_sample
  find-record_samples cfg now va [] mgr d = refl
  find-record_samples cfg now va ((u, s) ∷ rest) mgr (d, ds) = ground (
    arith,
    find-record_samples cfg now va rest (record_sample cfg now (u, s) mgr) ds,
    find-record_sample cfg now va u s mgr,
    unsampled u rest d,
  )

  pub find-update_all :
      (g : PageMetadata D → PageMetadata D) (va : ℕ) (pages : OrderedMap (PageMetadata D))
      → find va (update_all g pages) ≡ Option.map g (find va pages)
  unfolding find update_all
  find-update_all g va [] = refl
  find-update_all g va ((u, m) ∷ rest) = ground (arith, find-update_all g va rest)

  rated :
      (mean max_sf density : D) (o : Option (PageMetadata D))
      → Option.map own_features (
          Option.map
            (rate_aci density)
            (Option.map (rate_frequency max_sf) (Option.map (rate_hot mean) (Option.map decay o))))
        ≡ Option.map (λ m. own_features (decay m)) o
  unfolding rate_aci rate_frequency rate_hot decay
  rated mean max_sf density none = refl
  rated mean max_sf density (some m) = refl

  find-rate_pages :
      (va : ℕ) (mgr : TierManager D)
      → Option.map own_features (find va (rate_pages mgr).pages_meta)
        ≡ Option.map (λ m. own_features (decay m)) (find va mgr.pages_meta)
  unfolding rate_pages
  find-rate_pages va mgr = simp find-update_all (rated _ _ _ (find va mgr.pages_meta))

  -- For samples of distinct pages, and but for the features that compare pages, each page after
  -- `detect_accesses` is what its own history and sample make it: a page with a sample is touched,
  -- if need be after it is discovered, and a page without one decays.
  pub detect_accesses-page :
      (cfg : Config) (now : ℤ) (va : ℕ) (samples : List (ℕ × PageSample D)) (mgr : TierManager D)
      → Distinct (map (λ e. e.0) samples)
      → Option.map own_features (find va (detect_accesses cfg now samples mgr).pages_meta)
        ≡ Option.map
            (λ m. own_features (decay m))
            (after_sample cfg now va
              (find va samples)
              (Option.map start_epoch (find va mgr.pages_meta)))
  unfolding detect_accesses
  detect_accesses-page cfg now va samples mgr d =
      find-rate_pages va (record_samples cfg now samples started)
      ∙ ap (Option.map (λ m. own_features (decay m))) (
          find-record_samples cfg now va samples started d
          ∙ ap (after_sample cfg now va (find va samples))
              (find-update_all start_epoch va mgr.pages_meta))
    where
      started : TierManager D
      started = record mgr {
        pages_meta = update_all start_epoch mgr.pages_meta;
        epoch_accesses = pos 0;
        epoch_hits = pos 0;
      }
