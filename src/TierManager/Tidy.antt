-- ===== src/TierManager/Tidy.antt =====
-- What every method of the tier manager keeps, whatever the kernel replies and whatever fails.
pub mod Methods
use os_research_codebase.Prelude.{
  ℕ, ◌≡◌, refl, Bool, true, false, ◌==◌, List, [], ◌∷◌, Option, none, some, All, arith,
}
use os_research_codebase.OrderedMap.{OrderedMap, find, insert, update_all, IsAscending, find-insert}
use os_research_codebase.Page.{PageMetadata}
use os_research_codebase.TierManager.{TierManager}
use os_research_codebase.TierManager.Invariant.{IsKeyed, Synced}
use os_research_codebase.TierManager.Migration.Counts.{fast_count}

module _ {D : Type 0} where
  -- Where no page is tracked, none is counted.
  abbrev pub NoneCounted : OrderedMap (PageMetadata D) → ℕ → Type 0
  NoneCounted [] n = n ≡ 0
  NoneCounted (entry ∷ pages) n = Unit {0}

  -- The map's keys ascend and are the pages' addresses; the count of the fast tier may be out of
  -- date, but is zero if no page is tracked.
  pub record Tidy (mgr : TierManager D) : Type 0 where
    pub ascending : IsAscending mgr.pages_meta
    pub keyed : IsKeyed mgr.pages_meta
    pub none_counted : NoneCounted mgr.pages_meta mgr.fast_tier_count

  abbrev pub is_some : Option (PageMetadata D) → Bool
  is_some none = false
  is_some (some m) = true

  abbrev pub is_tracked : OrderedMap (PageMetadata D) → ℕ → Bool
  is_tracked pages va = is_some (find va pages)

  abbrev pub Tracked : OrderedMap (PageMetadata D) → ℕ → Type 0
  Tracked pages va = is_tracked pages va ≡ true

  pub insert-NoneCounted :
      (va : ℕ) (m : PageMetadata D) (pages : OrderedMap (PageMetadata D)) (n : ℕ)
      → NoneCounted (insert va m pages) n
  unfolding insert
  insert-NoneCounted va m [] n = tt
  insert-NoneCounted va m ((j, w) ∷ pages) n = ground arith

  pub update_all-NoneCounted :
      (g : PageMetadata D → PageMetadata D) (pages : OrderedMap (PageMetadata D)) (n : ℕ)
      → NoneCounted pages n
      → NoneCounted (update_all g pages) n
  unfolding update_all
  update_all-NoneCounted g [] n h = h
  update_all-NoneCounted g (entry ∷ pages) n h = tt

  pub insert-Tracked :
      (u va : ℕ) (m : PageMetadata D) (pages : OrderedMap (PageMetadata D))
      → Tracked pages u
      → Tracked (insert va m pages) u
  insert-Tracked u va m pages h = ground (arith, find-insert u va m pages)

  behind-Tracked :
      (j : ℕ) (m : PageMetadata D) (pages others : OrderedMap (PageMetadata D))
      → All (λ e. Tracked pages e.1.page_va) others
      → All (λ e. Tracked ((j, m) ∷ pages) e.1.page_va) others
  unfolding find
  behind-Tracked j m pages [] h = tt
  behind-Tracked j m pages ((i, w) ∷ others) (h, hs) =
      (ground arith, behind-Tracked j m pages others hs)

  -- Each page is found by its own address.
  pub pages-Tracked :
      (pages : OrderedMap (PageMetadata D))
      → IsKeyed pages
      → All (λ e. Tracked pages e.1.page_va) pages
  unfolding find
  pages-Tracked [] k = tt
  pages-Tracked ((j, m) ∷ pages) (k, ks) =
      (ground arith, behind-Tracked j m pages pages (pages-Tracked pages ks))

  Synced-NoneCounted :
      (pages : OrderedMap (PageMetadata D)) (n : ℕ) → n ≡ fast_count pages → NoneCounted pages n
  Synced-NoneCounted [] n h = h
  Synced-NoneCounted (entry ∷ pages) n h = tt

  pub Synced-Tidy : (mgr : TierManager D) → Synced mgr → Tidy mgr
  Synced-Tidy mgr y = record {
    ascending = y.ascending;
    keyed = y.keyed;
    none_counted = Synced-NoneCounted mgr.pages_meta mgr.fast_tier_count y.counted;
  }

  pub NoneCounted-at_empty :
      (pages : OrderedMap (PageMetadata D)) (n : ℕ) → NoneCounted pages n → pages ≡ [] → n ≡ 0
  NoneCounted-at_empty [] n h e = h
  NoneCounted-at_empty (entry ∷ pages) n h e = absurd (ground arith)
