-- ===== src/TierManager/Accesses/Kept.antt =====
-- `detect_accesses` leaves the tracked pages tidy.
use os_research_codebase.Prelude.{
  ℕ, ◌≡◌, refl, List, [], ◌∷◌, ℤ, pos, ◌==ℤ◌, Bool-cases, inl, inr, arith,
}
use os_research_codebase.Float.{Float}
use os_research_codebase.Config.{Config}
use os_research_codebase.OrderedMap.{find, update_all, insert-IsAscending, update_all-IsAscending}
use os_research_codebase.Page.{
  PageMetadata, PageSample, start_epoch, decay, rate_hot, rate_frequency, rate_aci,
}
use os_research_codebase.TierManager.{TierManager}
use os_research_codebase.TierManager.Accesses.{
  record_sample, record_samples, rate_pages, detect_accesses,
}
use os_research_codebase.TierManager.Accesses.Hits.{sampled, touched-page_va}
use os_research_codebase.TierManager.Accesses.Epoch.{decay-page_va}
use os_research_codebase.TierManager.Invariant.{find-KeyedAt, insert-IsKeyed, update_all-IsKeyed}
use os_research_codebase.TierManager.Tidy.{Tidy, insert-NoneCounted, update_all-NoneCounted}

module _ {D : Type 0} ⦃f : Float D⦄ where
  update_all-Tidy :
      (g : PageMetadata D → PageMetadata D) (mgr : TierManager D)
      → ((m : PageMetadata D) → (g m).page_va ≡ m.page_va)
      → Tidy mgr
      → Tidy (record mgr { pages_meta = update_all g mgr.pages_meta })
  update_all-Tidy g mgr va y = record {
    ascending = update_all-IsAscending g mgr.pages_meta y.ascending;
    keyed = update_all-IsKeyed g va mgr.pages_meta y.keyed;
    none_counted = update_all-NoneCounted g mgr.pages_meta mgr.fast_tier_count y.none_counted;
  }

  record_sample-Tidy :
      (cfg : Config) (now : ℤ) (va : ℕ) (s : PageSample D) (mgr : TierManager D)
      → Tidy mgr
      → Tidy (record_sample cfg now (va, s) mgr)
  unfolding record_sample
  record_sample-Tidy cfg now va s mgr y = elim (Bool-cases (s.sample_count ==ℤ pos 0)) [
    | inl e ↦ rw (e, record_sample) y
    | inr e ↦
        rw (e, record_sample)
          (record {
            ascending = insert-IsAscending va (entry) mgr.pages_meta y.ascending;
            keyed =
                insert-IsKeyed va (entry) mgr.pages_meta
                  (touched-page_va cfg now va s (find va mgr.pages_meta)
                    (find-KeyedAt va mgr.pages_meta y.keyed))
                  y.keyed;
            none_counted = insert-NoneCounted va (entry) mgr.pages_meta mgr.fast_tier_count;
          })
  ]
    where
      entry : PageMetadata D
      entry = sampled cfg now va s mgr.pages_meta

  record_samples-Tidy :
      (cfg : Config) (now : ℤ) (samples : List (ℕ × PageSample D)) (mgr : TierManager D)
      → Tidy mgr
      → Tidy (record_samples cfg now samples mgr)
  unfolding record_samples
  record_samples-Tidy cfg now [] mgr y = y
  record_samples-Tidy cfg now ((va, s) ∷ rest) mgr y =
      record_samples-Tidy cfg now rest (record_sample cfg now (va, s) mgr)
        (record_sample-Tidy cfg now va s mgr y)

  rate_pages-Tidy : (mgr : TierManager D) → Tidy mgr → Tidy (rate_pages mgr)
  unfolding rate_pages rate_aci rate_frequency rate_hot
  rate_pages-Tidy mgr y =
      let y' =
        update_all-Tidy _ _ (λ m. refl)
          (update_all-Tidy _ _ (λ m. refl)
            (update_all-Tidy _ _ (λ m. refl) (update_all-Tidy decay mgr decay-page_va y))) in
      record { ascending = y'.ascending; keyed = y'.keyed; none_counted = y'.none_counted }

  pub detect_accesses-Tidy :
      (cfg : Config) (now : ℤ) (samples : List (ℕ × PageSample D)) (mgr : TierManager D)
      → Tidy mgr
      → Tidy (detect_accesses cfg now samples mgr)
  unfolding detect_accesses start_epoch
  detect_accesses-Tidy cfg now samples mgr y =
      let y' = update_all-Tidy start_epoch mgr (λ m. refl) y in
      rate_pages-Tidy _ (
        record_samples-Tidy cfg now samples _
          (record { ascending = y'.ascending; keyed = y'.keyed; none_counted = y'.none_counted }))

module _ {D : Type 0} ⦃f : Float D⦄ where
  record_samples-kept :
      (cfg : Config) (now : ℤ) (samples : List (ℕ × PageSample D)) (mgr : TierManager D)
      → ((record_samples cfg now samples mgr).fast_tier_count ≡ mgr.fast_tier_count)
        × ((record_samples cfg now samples mgr).epoch_demotions ≡ mgr.epoch_demotions)
  unfolding record_samples record_sample
  record_samples-kept cfg now [] mgr = (refl, refl)
  record_samples-kept cfg now ((va, s) ∷ samples) mgr =
      ground (arith, record_samples-kept cfg now samples (record_sample cfg now (va, s) mgr))

  -- Neither the count of the fast tier nor that of the demotions is touched.
  pub detect_accesses-kept :
      (cfg : Config) (now : ℤ) (samples : List (ℕ × PageSample D)) (mgr : TierManager D)
      → ((detect_accesses cfg now samples mgr).fast_tier_count ≡ mgr.fast_tier_count)
        × ((detect_accesses cfg now samples mgr).epoch_demotions ≡ mgr.epoch_demotions)
  unfolding detect_accesses rate_pages
  detect_accesses-kept cfg now samples mgr = record_samples-kept cfg now samples _
