-- ===== src/TierManager/Accesses/Described.antt =====
-- Each field that an epoch of `detect_accesses` leaves in a page's record, written out.
use mathlib.Core.Option
use os_research_codebase.Prelude.{
  ℕ, suc, ◌≡◌, refl, ◌∙◌, true, false, if◌then◌else◌, List, map, Option, none, some, ℤ, pos, ◌==ℤ◌,
  ◌+ℤ◌, Bool-cases, inl, inr,
}
use os_research_codebase.Float.{Float}
use os_research_codebase.Config.{Config}
use os_research_codebase.OrderedMap.{find}
use os_research_codebase.Sorting.{Distinct}
use os_research_codebase.Page.{
  PageMetadata, PageSample, start_epoch, zero_page, discovered, touch, decay,
}
use os_research_codebase.TierManager.{TierManager}
use os_research_codebase.TierManager.Accesses.{detect_accesses}
use os_research_codebase.TierManager.Accesses.Pages.{
  own_features, after_sample, detect_accesses-page,
}

module _ {D : Type 0} ⦃f : Float D⦄ where
  open f use {of_int, decimal, add, sub, mul, div}

  -- A tracked page without an access.
  abbrev idle_page : PageMetadata D → PageMetadata D
  idle_page m = record {
    page_va = m.page_va;
    current_node = m.current_node;
    last_access_time = m.last_access_time;
    access_count = m.access_count;
    smooth_frequency = mul m.smooth_frequency (decimal 95 2);
    migration_history = m.migration_history;
    accessed_this_epoch = false;
    prev_smooth_frequency = m.smooth_frequency;
    momentum = sub (mul m.smooth_frequency (decimal 95 2)) m.smooth_frequency;
    epochs_since_access = suc m.epochs_since_access;
    consecutive_hot_epochs = 0;
    hot_ratio = of_int (pos 0);
    access_frequency_ratio = of_int (pos 0);
    avg_latency_cycles = m.avg_latency_cycles;
    aci = of_int (pos 0);
  }

  -- A tracked page with accesses.
  abbrev busy_page : ℤ → PageSample D → PageMetadata D → PageMetadata D
  busy_page now s m = record {
    page_va = m.page_va;
    current_node = m.current_node;
    last_access_time = now;
    access_count = m.access_count +ℤ s.sample_count;
    smooth_frequency = add (mul (decimal 5 1) m.smooth_frequency) (of_int s.sample_count);
    migration_history = m.migration_history;
    accessed_this_epoch = true;
    prev_smooth_frequency = m.smooth_frequency;
    momentum =
        sub (add (mul (decimal 5 1) m.smooth_frequency) (of_int s.sample_count)) m.smooth_frequency;
    epochs_since_access = 0;
    consecutive_hot_epochs = suc m.consecutive_hot_epochs;
    hot_ratio = of_int (pos 0);
    access_frequency_ratio = of_int (pos 0);
    avg_latency_cycles = div s.total_latency_cycles (of_int s.sample_count);
    aci = of_int (pos 0);
  }

  -- A page accessed for the first time. It counts as a page of the slow node.
  abbrev new_page : Config → ℤ → ℕ → PageSample D → PageMetadata D
  new_page cfg now va s = record {
    page_va = va;
    current_node = cfg.slow_node;
    last_access_time = now;
    access_count = pos 0 +ℤ s.sample_count;
    smooth_frequency = add (mul (decimal 5 1) (of_int (pos 0))) (of_int s.sample_count);
    migration_history = 0;
    accessed_this_epoch = true;
    prev_smooth_frequency = of_int (pos 0);
    momentum =
        sub (add (mul (decimal 5 1) (of_int (pos 0))) (of_int s.sample_count)) (of_int (pos 0));
    epochs_since_access = 0;
    consecutive_hot_epochs = 1;
    hot_ratio = of_int (pos 0);
    access_frequency_ratio = of_int (pos 0);
    avg_latency_cycles = div s.total_latency_cycles (of_int s.sample_count);
    aci = of_int (pos 0);
  }

  -- The sample and the page before decide the page after.
  abbrev pub page_after :
      Config → ℤ → ℕ → Option (PageSample D) → Option (PageMetadata D) → Option (PageMetadata D)
  page_after cfg now va none none = none
  page_after cfg now va none (some m) = some (idle_page m)
  page_after cfg now va (some s) none =
      if s.sample_count ==ℤ pos 0 then none else some (new_page cfg now va s)
  page_after cfg now va (some s) (some m) =
      some (if s.sample_count ==ℤ pos 0 then idle_page m else busy_page now s m)

  composed-page_after :
      (cfg : Config) (now : ℤ) (va : ℕ) (s : Option (PageSample D)) (o : Option (PageMetadata D))
      → Option.map
          (λ m. own_features (decay m))
          (after_sample cfg now va s (Option.map start_epoch o))
        ≡ page_after cfg now va s o
  unfolding after_sample start_epoch zero_page discovered touch decay
  composed-page_after cfg now va none none = refl
  composed-page_after cfg now va none (some m) = refl
  composed-page_after cfg now va (some s) none = elim (Bool-cases (s.sample_count ==ℤ pos 0)) [
    | inl e ↦ rw (e, after_sample) refl
    | inr e ↦ rw (e, after_sample) refl
  ]
  composed-page_after cfg now va (some s) (some m) = elim (Bool-cases (s.sample_count ==ℤ pos 0)) [
    | inl e ↦ rw (e, after_sample) refl
    | inr e ↦ rw (e, after_sample) refl
  ]

  -- For samples of distinct pages, and but for the three features that compare a page with others,
  -- which are taken as zero here, the record of each page after `detect_accesses` is, field by field,
  -- the one described: a tracked page without accesses loses a twentieth of its frequency, counts an
  -- epoch more since its last access and none in a row, and is not accessed in this epoch; a page with
  -- accesses is accessed now, in this epoch and in one more in a row, adds them to its count and to
  -- half its frequency, and has the mean latency of its samples; either keeps its frequency of
  -- before, and the difference as its momentum; a page accessed for the first time is on the slow
  -- node and starts from zero; and no other page is tracked.
  pub detect_accesses-page_after :
      (cfg : Config) (now : ℤ) (va : ℕ) (samples : List (ℕ × PageSample D)) (mgr : TierManager D)
      → Distinct (map (λ e. e.0) samples)
      → Option.map own_features (find va (detect_accesses cfg now samples mgr).pages_meta)
        ≡ page_after cfg now va (find va samples) (find va mgr.pages_meta)
  detect_accesses-page_after cfg now va samples mgr d =
      detect_accesses-page cfg now va samples mgr d
      ∙ composed-page_after cfg now va (find va samples) (find va mgr.pages_meta)
