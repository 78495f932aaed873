-- ===== src/TierManager/Accesses/Unordered.antt =====
-- `detect_accesses` on the `std::unordered_map` that `EbpfSampler::get_all_samples` of
-- daemon/ebpf_sampler.h gives: a map without an order.
use mathlib.Core.List.{Permᴰ}
use mathlib.Core.Option
use mathlib.Core.Path.{ap₂}
use mathlib.Core.Quot
use mathlib.Core.Quot.{Quot, Quot-set}
use os_research_codebase.Prelude.{
  ℕ, ◌≡◌, refl, ◌∙◌, ap, Bool, true, false, if◌then◌else◌, List, ◌∷◌, map, ℤ, pos, ◌+ℤ◌, ◌==ℤ◌,
  Option, some, ◌==◌, arith, Bool-cases, inl, inr,
}
use os_research_codebase.Float.{Float}
use os_research_codebase.Config.{Config}
use os_research_codebase.OrderedMap.{find}
use os_research_codebase.Sorting.{Distinct, Distinct-permᴰ, differs}
use os_research_codebase.Page.{PageMetadata, PageSample, start_epoch, decay}
use os_research_codebase.TierManager.{TierManager}
use os_research_codebase.TierManager.Accesses.{detect_accesses}
use os_research_codebase.TierManager.Accesses.Order.{detect_accesses-permᴰ, keys-permᴰ, +ℤ_swap}
use os_research_codebase.TierManager.Accesses.Hits.{sum_where}
use os_research_codebase.TierManager.Accesses.Pages.{
  own_features, after_sample, detect_accesses-page,
}
use os_research_codebase.TierManager.Accesses.Epoch.{detect_accesses-sums}
use os_research_codebase.TierManager.Migration.Counts.{is_on_fast}

-- The entries in some order, each page once.
pub record Listing (D : Type 0) : Type 0 where
  pub entries : List (ℕ × PageSample D)
  pub distinct : Distinct (map (λ e. e.0) entries)

abbrev pub Reordered : {D : Type 0} → Listing D → Listing D → Type 0
Reordered a b = Permᴰ a.entries b.entries

-- The map that the entries make up, whatever their order.
abbrev pub UnorderedMap : Type 0 → Type 0
UnorderedMap D = Quot (Reordered {D = D})

TierManager-IsSet : {D : Type 0} → IsSet D → IsSet (TierManager D)
TierManager-IsSet h = hlevel

pub ℤ-IsSet : IsSet ℤ
ℤ-IsSet = hlevel

Option-IsSet : {D : Type 0} → IsSet D → IsSet (Option (PageSample D))
Option-IsSet h = hlevel

PageOption-IsSet : {D : Type 0} → IsSet D → IsSet (Option (PageMetadata D))
PageOption-IsSet h = hlevel

-- Functions of the map that agree on its listings agree.
agree :
    {D B : Type 0}
    → IsSet B
    → (g h : UnorderedMap D → B) → ((l : Listing D) → g (Quot.mk l) ≡ h (Quot.mk l))
    → (q : UnorderedMap D) → g q ≡ h q
agree set g h e = Quot.ind (λ q. set (g q) (h q)) e

module _ {V : Type 0} where
  exchanged :
      (va : ℕ) (a b : ℕ × V) (l : List (ℕ × V))
      → differs a.0 b.0 ≡ true
      → find va (a ∷ b ∷ l) ≡ find va (b ∷ a ∷ l)
  unfolding find
  exchanged va (k, v) (j, w) l h = ground (arith, h)

  -- An entry is found wherever it stands.
  find-permᴰ :
      (va : ℕ) (xs ys : List (ℕ × V))
      → Permᴰ xs ys
      → Distinct (map (λ e. e.0) xs)
      → find va xs ≡ find va ys
  unfolding find
  find-permᴰ va xs ys Permᴰ.nil d = refl
  find-permᴰ va xs ys (Permᴰ.cons {a = a} {b = b} {l₁ = l₁} {l₂ = l₂} e p) (d, ds) =
      ap (λ r. if va == a.0 then some a.1 else r) (find-permᴰ va l₁ l₂ p ds)
      ∙ ap (λ x. find va (x ∷ l₂)) e
  find-permᴰ va xs ys (Permᴰ.swap {a = a} {b = b} {a' = a'} {b' = b'} {l = l} e e') ((d, ds), dss) =
      exchanged va a b l d ∙ ap₂ (λ x y. find va (x ∷ y ∷ l)) e' e
  find-permᴰ va xs ys (Permᴰ.trans {l₂ = l₂} p q) d =
      find-permᴰ va xs l₂ p d
      ∙ find-permᴰ va l₂ ys q
          (Distinct-permᴰ (map (λ e. e.0) xs) (map (λ e. e.0) l₂) (keys-permᴰ xs l₂ p) d)

module _ {D : Type 0} (p : ℕ → Bool) where
  entered : ℤ → ℕ × PageSample D → ℤ
  entered acc e = if p e.0 then acc +ℤ e.1.sample_count else acc

  entered_comm :
      (acc : ℤ) (a b : ℕ × PageSample D) → entered (entered acc a) b ≡ entered (entered acc b) a
  unfolding entered
  entered_comm acc a b = elim (Bool-cases (p a.0)) [
    | inl h ↦ elim (Bool-cases (p b.0)) [
      | inl k ↦ rw (h, k) (+ℤ_swap acc a.1.sample_count b.1.sample_count)
      | inr k ↦ rw (h, k) refl
    ]
    | inr h ↦ rw h refl
  ]

  sum_where-permᴰ :
      (xs ys : List (ℕ × PageSample D)) (acc : ℤ)
      → Permᴰ xs ys
      → sum_where p acc xs ≡ sum_where p acc ys
  unfolding sum_where entered
  sum_where-permᴰ xs ys acc Permᴰ.nil = refl
  sum_where-permᴰ xs ys acc (Permᴰ.cons {a = a} {l₁ = l₁} {l₂ = l₂} e q) =
      sum_where-permᴰ l₁ l₂ (entered acc a) q ∙ ap (λ x. sum_where p (entered acc x) l₂) e
  sum_where-permᴰ xs ys acc (Permᴰ.swap {a = a} {b = b} {l = l} e e') =
      ap (λ x. sum_where p x l) (entered_comm acc a b)
      ∙ ap₂ (λ x y. sum_where p (entered (entered acc x) y) l) e' e
  sum_where-permᴰ xs ys acc (Permᴰ.trans {l₂ = l₂} q r) =
      sum_where-permᴰ xs l₂ acc q ∙ sum_where-permᴰ l₂ ys acc r

module _ {D : Type 0} (set : IsSet D) where
  -- `find` on the map.
  pub sample_at : ℕ → UnorderedMap D → Option (PageSample D)
  sample_at va =
      Quot.lift (Option-IsSet set) (λ l. find va l.entries)
        (λ a b q. find-permᴰ va a.entries b.entries q a.distinct)

  -- The sum of the counts of the pages that pass a test.
  pub sum_of : (ℕ → Bool) → UnorderedMap D → ℤ
  sum_of p =
      Quot.lift ℤ-IsSet (λ l. sum_where p (pos 0) l.entries)
        (λ a b q. sum_where-permᴰ p a.entries b.entries (pos 0) q)

  module _ ⦃f : Float D⦄ (cfg : Config) (now : ℤ) where
    -- `detect_accesses` as a function of the map.
    pub detect_unordered : UnorderedMap D → TierManager D → TierManager D
    detect_unordered samples mgr =
        Quot.lift (TierManager-IsSet set) (λ l. detect_accesses cfg now l.entries mgr)
          (λ a b q. detect_accesses-permᴰ cfg now a.entries b.entries mgr q a.distinct) samples

    -- `detect_accesses` is a function of the unordered map of the samples, for doubles that form a
    -- set and a slow node that is not node 0: whatever the order in which the map is visited, it gives that function's
    -- result; by which, but for the features that compare pages, each page is what its own history and the
    -- sample that the map holds for it make it, and the epoch's accesses and hits are the map's
    -- sums over all pages and over those that were on the fast node.
    pub detect_unordered_lem :
        (cfg.slow_node ==ℤ pos 0) ≡ false
        → (samples : UnorderedMap D) (mgr : TierManager D) (va : ℕ)
        → ((l : Listing D)
            → detect_unordered (Quot.mk l) mgr ≡ detect_accesses cfg now l.entries mgr)
          × (Option.map own_features (find va (detect_unordered samples mgr).pages_meta)
              ≡ Option.map
                  (λ m. own_features (decay m))
                  (after_sample cfg now va
                    (sample_at va samples)
                    (Option.map start_epoch (find va mgr.pages_meta))))
          × ((detect_unordered samples mgr).epoch_accesses ≡ sum_of (λ u. true) samples)
          × ((detect_unordered samples mgr).epoch_hits
              ≡ sum_of (λ u. is_on_fast (find u mgr.pages_meta)) samples)
    unfolding sample_at sum_of detect_unordered
    detect_unordered_lem apart samples mgr va = (
      λ l. refl,
      agree (PageOption-IsSet set)
          (λ q. Option.map own_features (find va (detect_unordered q mgr).pages_meta))
          (λ q.
            Option.map (λ m. own_features (decay m))
              (after_sample cfg now va (sample_at va q)
                (Option.map start_epoch (find va mgr.pages_meta))))
          (λ l. detect_accesses-page cfg now va l.entries mgr l.distinct) samples,
      agree ℤ-IsSet (λ q. (detect_unordered q mgr).epoch_accesses) (sum_of (λ u. true))
          (λ l. (detect_accesses-sums cfg now l.entries mgr apart).0) samples,
      agree ℤ-IsSet (λ q. (detect_unordered q mgr).epoch_hits)
          (sum_of (λ u. is_on_fast (find u mgr.pages_meta)))
          (λ l. (detect_accesses-sums cfg now l.entries mgr apart).1) samples,
    )
