-- ===== src/TierManager/Accesses.antt =====
-- `TierManager::detect_accesses` of daemon/tier_manager.cpp.
pub mod Pages
pub mod Described
pub mod Hits
pub mod Epoch
pub mod Kept
pub mod Order
pub mod Unordered
use os_research_codebase.Prelude.{
  ℕ, suc, ◌+◌, ◌<◌, ◌≡◌, Bool, true, false, ◌&&◌, not, ltb, leb, ◌==◌, if◌then◌else◌, List, [], ◌∷◌,
  map, Option, none, some, ℤ, pos, negsuc, ◌+ℤ◌, ◌==ℤ◌, ltb_ℤ, leb_ℤ, length, replicate, count,
}
use os_research_codebase.Float.{Float, max_of}
use os_research_codebase.OrderedMap.{OrderedMap, find, insert, update_all}
use os_research_codebase.Page.{
  PageMetadata, PageSample, start_epoch, discovered, touch, decay, rate_hot, rate_frequency,
  rate_aci,
}
use os_research_codebase.Config.{Config}
use os_research_codebase.TierManager.{TierManager}

module _ {D : Type 0} ⦃f : Float D⦄ where
  open f use {of_int, decimal, add, sub, mul, div, lt}

  abbrev pub or_discovered : Config → ℕ → Option (PageMetadata D) → PageMetadata D
  or_discovered cfg va none = discovered cfg va
  or_discovered cfg va (some m) = m

  -- The body of the loop over the samples.
  unfoldable pub record_sample : Config → ℤ → ℕ × PageSample D → TierManager D → TierManager D
  record_sample cfg now (va, s) mgr =
      let m = or_discovered cfg va (find va mgr.pages_meta) in
      if s.sample_count ==ℤ pos 0 then mgr else record mgr {
        pages_meta = insert va (touch now s m) mgr.pages_meta;
        epoch_accesses = mgr.epoch_accesses +ℤ s.sample_count;
        epoch_hits =
            (if m.current_node ==ℤ pos 0 then mgr.epoch_hits +ℤ s.sample_count else mgr.epoch_hits);
      }

  unfoldable pub record_samples :
      Config → ℤ → List (ℕ × PageSample D) → TierManager D → TierManager D
  record_samples cfg now [] mgr = mgr
  record_samples cfg now (s ∷ ss) mgr = record_samples cfg now ss (record_sample cfg now s mgr)

  sum_frequency : D → OrderedMap (PageMetadata D) → D
  sum_frequency acc [] = acc
  sum_frequency acc ((va, m) ∷ ms) =
      sum_frequency (if m.accessed_this_epoch then add acc m.smooth_frequency else acc) ms

  max_frequency : D → OrderedMap (PageMetadata D) → D
  max_frequency acc [] = acc
  max_frequency acc ((va, m) ∷ ms) = max_frequency (max_of acc m.smooth_frequency) ms

  -- How many pages were accessed, as the loop that counts them.
  abbrev pub accessed : ℕ × PageMetadata D → Bool
  accessed (va, m) = m.accessed_this_epoch

  -- What follows the loop over the samples: the features of every page, and the density.
  rate_pages : TierManager D → TierManager D
  unfolding sum_frequency max_frequency
  rate_pages mgr =
      let decayed = update_all decay mgr.pages_meta in
      let freq_sum = sum_frequency (of_int (pos 0)) decayed in
      let epoch_mean =
        (if ltb_ℤ (pos 0) mgr.epoch_accesses
          then div freq_sum (of_int mgr.epoch_accesses)
          else of_int (pos 0)) in
      let hot = update_all (rate_hot epoch_mean) decayed in
      let max_sf = max_frequency (of_int (pos 0)) hot in
      let rated = update_all (rate_frequency max_sf) hot in
      let unique = count accessed rated in
      let density =
        (if ltb 0 unique
          then div (of_int mgr.epoch_accesses) (of_int (pos unique))
          else of_int (pos 1)) in
      record mgr {
        pages_meta = update_all (rate_aci density) rated;
        epoch_density = density;
        epoch_misplaced_pages = 0;
      }

  -- `TierManager::detect_accesses`, at the time `now` and on what the sampler gathered.
  unfoldable pub detect_accesses :
      Config → ℤ → List (ℕ × PageSample D) → TierManager D → TierManager D
  unfolding rate_pages
  detect_accesses cfg now samples mgr = rate_pages (record_samples cfg now samples started)
    where
      started : TierManager D
      started = record mgr {
        pages_meta = update_all start_epoch mgr.pages_meta;
        epoch_accesses = pos 0;
        epoch_hits = pos 0;
      }
