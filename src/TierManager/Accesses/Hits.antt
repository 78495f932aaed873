-- ===== src/TierManager/Accesses/Hits.antt =====
-- What `detect_accesses` counts, and that it keeps the tracked pages in order.
use os_research_codebase.Prelude.{
  ℕ, ◌≡◌, refl, ◌∙◌, ap, Bool, true, false, if◌then◌else◌, List, [], ◌∷◌, Option, none, some, ℤ,
  pos, ◌+ℤ◌, ◌==ℤ◌, +ℤ_parts, eq_of_parts, arith, Bool-cases, inl, inr, sym, fun_ext,
}
use os_research_codebase.Float.{Float}
use os_research_codebase.Config.{Config}
use os_research_codebase.OrderedMap.{
  OrderedMap, find, insert, find-insert, insert-IsAscending, IsAscending,
}
use os_research_codebase.OrderedMap.Counting.{count-insert}
use os_research_codebase.Page.{PageMetadata, PageSample, discovered, touch}
use os_research_codebase.TierManager.{TierManager, on_fast}
use os_research_codebase.TierManager.Accesses.{or_discovered, record_sample, record_samples}
use os_research_codebase.TierManager.Migration.Counts.{fast_count, is_on_fast}
use os_research_codebase.TierManager.Invariant.{Synced, KeyedAt, find-KeyedAt, insert-IsKeyed}

-- The sum of the counts of the samples whose page passes a test, from `acc`.
unfoldable pub sum_where : {D : Type 0} → (ℕ → Bool) → ℤ → List (ℕ × PageSample D) → ℤ
sum_where p acc [] = acc
sum_where p acc ((va, s) ∷ rest) = sum_where p (if p va then acc +ℤ s.sample_count else acc) rest

pub sum_where-ext :
    {D : Type 0} (p q : ℕ → Bool)
    → ((va : ℕ) → p va ≡ q va)
    → (acc : ℤ) (samples : List (ℕ × PageSample D))
    → sum_where p acc samples ≡ sum_where q acc samples
sum_where-ext p q h acc samples = ap (λ r. sum_where r acc samples) (fun_ext h)

+ℤ_zero : (a b : ℤ) → (b ==ℤ pos 0) ≡ true → a +ℤ b ≡ a
+ℤ_zero a b h = eq_of_parts (a +ℤ b) a (ground (arith, +ℤ_parts a b))

module _ {D : Type 0} ⦃f : Float D⦄ (cfg : Config) (now : ℤ) where
  -- The entry that a sample of the page leaves.
  abbrev pub sampled : ℕ → PageSample D → OrderedMap (PageMetadata D) → PageMetadata D
  sampled va s pages = touch now s (or_discovered cfg va (find va pages))

  pub touched-page_va :
      (va : ℕ) (s : PageSample D) (o : Option (PageMetadata D))
      → KeyedAt va o
      → (touch now s (or_discovered cfg va o)).page_va ≡ va
  unfolding touch discovered
  touched-page_va va s none k = refl
  touched-page_va va s (some m) k = k

module _ {D : Type 0} ⦃f : Float D⦄ (cfg : Config) (now : ℤ)
    (apart : (cfg.slow_node ==ℤ pos 0) ≡ false) where
  touched-on_fast :
      (va : ℕ) (s : PageSample D) (o : Option (PageMetadata D))
      → on_fast (va, touch now s (or_discovered cfg va o)) ≡ is_on_fast o
  unfolding touch discovered
  touched-on_fast va s none = apart
  touched-on_fast va s (some m) = refl

  sampled-fast_count :
      (va : ℕ) (s : PageSample D) (pages : OrderedMap (PageMetadata D))
      → IsAscending pages
      → fast_count (insert va (sampled cfg now va s pages) pages) ≡ fast_count pages
  sampled-fast_count va s pages a = ground (
    arith,
    count-insert on_fast va (sampled cfg now va s pages) pages a,
    touched-on_fast va s (find va pages),
  )

  record_sample-Synced :
      (va : ℕ) (s : PageSample D) (mgr : TierManager D)
      → Synced mgr
      → Synced (record_sample cfg now (va, s) mgr)
  unfolding record_sample
  record_sample-Synced va s mgr y = elim (Bool-cases (s.sample_count ==ℤ pos 0)) [
    | inl e ↦ rw (e, record_sample) y
    | inr e ↦
        rw (e, record_sample)
          (record {
            ascending =
                insert-IsAscending va (sampled cfg now va s mgr.pages_meta) mgr.pages_meta
                  y.ascending;
            keyed =
                insert-IsKeyed va (sampled cfg now va s mgr.pages_meta) mgr.pages_meta
                  (touched-page_va cfg now va s (find va mgr.pages_meta)
                    (find-KeyedAt va mgr.pages_meta y.keyed))
                  y.keyed;
            counted = y.counted ∙ sym (sampled-fast_count va s mgr.pages_meta y.ascending);
          })
  ]

  pub record_samples-Synced :
      (samples : List (ℕ × PageSample D)) (mgr : TierManager D)
      → Synced mgr
      → Synced (record_samples cfg now samples mgr)
  unfolding record_samples
  record_samples-Synced [] mgr y = y
  record_samples-Synced ((va, s) ∷ rest) mgr y =
      record_samples-Synced rest (record_sample cfg now (va, s) mgr)
        (record_sample-Synced va s mgr y)

  -- The node of a page does not change.
  record_sample-is_on_fast :
      (u va : ℕ) (s : PageSample D) (mgr : TierManager D)
      → is_on_fast (find u (record_sample cfg now (va, s) mgr).pages_meta)
        ≡ is_on_fast (find u mgr.pages_meta)
  unfolding record_sample
  record_sample-is_on_fast u va s mgr = ground (
    arith,
    find-insert u va (sampled cfg now va s mgr.pages_meta) mgr.pages_meta,
    touched-on_fast va s (find va mgr.pages_meta),
  )

  record_sample-sums :
      (va : ℕ) (s : PageSample D) (mgr : TierManager D)
      → ((record_sample cfg now (va, s) mgr).epoch_accesses ≡ mgr.epoch_accesses +ℤ s.sample_count)
        × ((record_sample cfg now (va, s) mgr).epoch_hits ≡ (
            if is_on_fast (find va mgr.pages_meta)
            then mgr.epoch_hits +ℤ s.sample_count
            else mgr.epoch_hits))
  unfolding record_sample
  record_sample-sums va s mgr = ground (
    arith,
    +ℤ_zero mgr.epoch_accesses s.sample_count,
    +ℤ_zero mgr.epoch_hits s.sample_count,
    touched-on_fast va s (find va mgr.pages_meta),
    same_node,
  )
    where
      same_node :
          on_fast (va, sampled cfg now va s mgr.pages_meta)
          ≡ ((or_discovered cfg va (find va mgr.pages_meta)).current_node ==ℤ pos 0)
      same_node = unfold touch in refl

  pub record_samples-sums :
      (samples : List (ℕ × PageSample D)) (mgr : TierManager D)
      → ((record_samples cfg now samples mgr).epoch_accesses
          ≡ sum_where (λ va. true) mgr.epoch_accesses samples)
        × ((record_samples cfg now samples mgr).epoch_hits
            ≡ sum_where (λ va. is_on_fast (find va mgr.pages_meta)) mgr.epoch_hits samples)
  unfolding record_samples sum_where
  record_samples-sums [] mgr = (refl, refl)
  record_samples-sums ((va, s) ∷ rest) mgr =
      let next = record_sample cfg now (va, s) mgr in
      let ih = record_samples-sums rest next in
      let sums = record_sample-sums va s mgr in
      (
        ih.0 ∙ ap (λ a. sum_where (λ va. true) a rest) sums.0,
        ih.1
            ∙ sum_where-ext _ _ (λ u. record_sample-is_on_fast u va s mgr) next.epoch_hits rest
            ∙ ap (λ a. sum_where (λ va. is_on_fast (find va mgr.pages_meta)) a rest) sums.1,
      )
