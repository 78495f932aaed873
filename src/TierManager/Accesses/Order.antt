-- ===== src/TierManager/Accesses/Order.antt =====
-- The order in which `detect_accesses` visits the samples: the sampler gives them in an
-- `std::unordered_map`, whose order the library does not determine.
use mathlib.Core.List.{Permᴰ}
use os_research_codebase.Prelude.{
  ℕ, ◌≡◌, refl, ◌∙◌, ap, Bool, true, false, if◌then◌else◌, List, [], ◌∷◌, map, ℤ, pos, ◌+ℤ◌, ◌==ℤ◌,
  +ℤ_parts, eq_of_parts, arith, Bool-cases, inl, inr,
}
use os_research_codebase.Float.{Float}
use os_research_codebase.Config.{Config}
use os_research_codebase.OrderedMap.{OrderedMap, find, insert, find-insert}
use os_research_codebase.Sorting.{Distinct, Distinct-permᴰ, differs, differs_symm}
use os_research_codebase.Page.{PageMetadata, PageSample}
use os_research_codebase.TierManager.{TierManager}
use os_research_codebase.TierManager.Accesses.{record_sample, record_samples, detect_accesses}

insert_comm :
    {V : Type 0} (k j : ℕ) (v w : V) (m : OrderedMap V)
    → differs k j ≡ true
    → insert j w (insert k v m) ≡ insert k v (insert j w m)
unfolding insert
insert_comm k j v w [] h = ground arith
insert_comm k j v w ((i, u) ∷ m) h = ground (arith, insert_comm k j v w m h)

pub +ℤ_swap : (a b c : ℤ) → a +ℤ b +ℤ c ≡ a +ℤ c +ℤ b
+ℤ_swap a b c =
    eq_of_parts (a +ℤ b +ℤ c) (a +ℤ c +ℤ b)
      (ground (arith, +ℤ_parts a b, +ℤ_parts a c, +ℤ_parts (a +ℤ b) c, +ℤ_parts (a +ℤ c) b))

pub keys-permᴰ :
    {V : Type 0} (xs ys : List (ℕ × V))
    → Permᴰ xs ys
    → Permᴰ (map (λ e. e.0) xs) (map (λ e. e.0) ys)
keys-permᴰ xs ys Permᴰ.nil = Permᴰ.nil
keys-permᴰ xs ys (Permᴰ.cons {l₁ = l₁} {l₂ = l₂} e p) =
    Permᴰ.cons (ap (λ e. e.0) e) (keys-permᴰ l₁ l₂ p)
keys-permᴰ xs ys (Permᴰ.swap e e') = Permᴰ.swap (ap (λ e. e.0) e) (ap (λ e. e.0) e')
keys-permᴰ xs ys (Permᴰ.trans {l₂ = l₂} p q) = Permᴰ.trans (keys-permᴰ xs l₂ p) (keys-permᴰ l₂ ys q)

-- The hits that a sample adds, if its page is on the fast tier.
abbrev add_if : Bool → ℤ → ℤ → ℤ
add_if fast c hits = if fast then hits +ℤ c else hits

add_if_comm :
    (fast fast' : Bool) (c c' hits : ℤ)
    → add_if fast' c' (add_if fast c hits) ≡ add_if fast c (add_if fast' c' hits)
add_if_comm true true c c' hits = +ℤ_swap hits c c'
add_if_comm true false c c' hits = refl
add_if_comm false true c c' hits = refl
add_if_comm false false c c' hits = refl

module _ {D : Type 0} where
  abbrev tallied : OrderedMap (PageMetadata D) → ℤ → ℤ → TierManager D → TierManager D
  tallied pages accesses hits mgr = record mgr {
    pages_meta = pages;
    epoch_accesses = accesses;
    epoch_hits = hits;
  }

  tallied-eq :
      {p p' : OrderedMap (PageMetadata D)} {a a' h h' : ℤ} (mgr : TierManager D)
      → p ≡ p'
      → a ≡ a'
      → h ≡ h'
      → tallied p a h mgr ≡ tallied p' a' h' mgr
  tallied-eq {p} {p'} {a} {a'} {h} {h'} mgr e d g =
      ap (λ x. tallied x a h mgr) e
      ∙ ap (λ x. tallied p' x h mgr) d
      ∙ ap (λ x. tallied p' a' x mgr) g

module _ {D : Type 0} ⦃f : Float D⦄ (cfg : Config) (now : ℤ) where
  -- The page that a sample of another page does not change.
  other :
      (k j : ℕ) (m : PageMetadata D) (pages : OrderedMap (PageMetadata D))
      → differs k j ≡ true
      → find j (insert k m pages) ≡ find j pages
  other k j m pages h = ground (arith, find-insert j k m pages)

  record_sample_comm :
      (k j : ℕ) (s t : PageSample D) (mgr : TierManager D)
      → differs k j ≡ true
      → record_sample cfg now (j, t) (record_sample cfg now (k, s) mgr)
        ≡ record_sample cfg now (k, s) (record_sample cfg now (j, t) mgr)
  unfolding record_sample
  record_sample_comm k j s t mgr h = elim (Bool-cases (s.sample_count ==ℤ pos 0)) [
    | inl e ↦ rw (e, record_sample)
    | inr e ↦ elim (Bool-cases (t.sample_count ==ℤ pos 0)) [
      | inl e' ↦ rw (e', record_sample)
      | inr e' ↦
          rw (e, e', other k j _ mgr.pages_meta h, other j k _ mgr.pages_meta (differs_symm k j h))
            (tallied-eq mgr (insert_comm k j _ _ mgr.pages_meta h)
              (+ℤ_swap mgr.epoch_accesses s.sample_count t.sample_count)
              (add_if_comm _ _ s.sample_count t.sample_count mgr.epoch_hits))
    ]
  ]

  record_samples-permᴰ :
      (xs ys : List (ℕ × PageSample D)) (mgr : TierManager D)
      → Permᴰ xs ys
      → Distinct (map (λ e. e.0) xs)
      → record_samples cfg now xs mgr ≡ record_samples cfg now ys mgr
  unfolding record_samples
  record_samples-permᴰ xs ys mgr Permᴰ.nil d = refl
  record_samples-permᴰ xs ys mgr (Permᴰ.cons {a = a} {l₁ = l₁} {l₂ = l₂} e p) (d, ds) =
      record_samples-permᴰ l₁ l₂ (record_sample cfg now a mgr) p ds
      ∙ ap (λ x. record_samples cfg now l₂ (record_sample cfg now x mgr)) e
  record_samples-permᴰ xs ys mgr (Permᴰ.swap {a = a} {b = b} {a' = a'} {l = l} e e')
        ((d, ds), dss) =
      ap (record_samples cfg now l) (record_sample_comm a.0 b.0 a.1 b.1 mgr d)
      ∙ ap (λ x. record_samples cfg now l (record_sample cfg now a (record_sample cfg now x mgr)))
          e'
      ∙ ap (λ x. record_samples cfg now l (record_sample cfg now x (record_sample cfg now a' mgr)))
          e
  record_samples-permᴰ xs ys mgr (Permᴰ.trans {l₂ = l₂} p q) d =
      record_samples-permᴰ xs l₂ mgr p d
      ∙ record_samples-permᴰ l₂ ys mgr q
          (Distinct-permᴰ (map (λ e. e.0) xs) (map (λ e. e.0) l₂) (keys-permᴰ xs l₂ p) d)

  -- The samples of distinct pages may come in any order: the tracked pages, the counters and the
  -- density of the epoch are the same.
  pub detect_accesses-permᴰ :
      (xs ys : List (ℕ × PageSample D)) (mgr : TierManager D)
      → Permᴰ xs ys
      → Distinct (map (λ e. e.0) xs)
      → detect_accesses cfg now xs mgr ≡ detect_accesses cfg now ys mgr
  unfolding detect_accesses
  detect_accesses-permᴰ xs ys mgr p d = rw (record_samples-permᴰ xs ys _ p d)
