-- ===== src/TierManager/Invariant.antt =====
-- What holds of the tracked pages between the operations of the tier manager.
use os_research_codebase.Prelude.{ℕ, ◌≡◌, refl, [], ◌∷◌, Option, none, some, All, ◌∙◌, arith}
use os_research_codebase.OrderedMap.{OrderedMap, find, insert, update_all, IsAscending}
use os_research_codebase.Page.{PageMetadata}
use os_research_codebase.TierManager.{TierManager}
use os_research_codebase.TierManager.Migration.Counts.{fast_count}

module _ {D : Type 0} where
  -- Each entry's key is its page's address.
  abbrev pub IsKeyed : OrderedMap (PageMetadata D) → Type 0
  IsKeyed pages = All (λ e. e.1.page_va ≡ e.0) pages

  -- The map's keys ascend and are the pages' addresses, and the count of the fast tier is right.
  pub record Synced (mgr : TierManager D) : Type 0 where
    pub ascending : IsAscending mgr.pages_meta
    pub keyed : IsKeyed mgr.pages_meta
    pub counted : mgr.fast_tier_count ≡ fast_count mgr.pages_meta

  abbrev pub KeyedAt : ℕ → Option (PageMetadata D) → Type 0
  KeyedAt va none = Unit
  KeyedAt va (some m) = m.page_va ≡ va

  pub find-KeyedAt :
      (va : ℕ) (pages : OrderedMap (PageMetadata D)) → IsKeyed pages → KeyedAt va (find va pages)
  unfolding find
  find-KeyedAt va [] k = tt
  find-KeyedAt va ((j, m) ∷ rest) (k, ks) = ground (arith, find-KeyedAt va rest ks)

  pub insert-IsKeyed :
      (va : ℕ) (m : PageMetadata D) (pages : OrderedMap (PageMetadata D))
      → m.page_va ≡ va
      → IsKeyed pages
      → IsKeyed (insert va m pages)
  unfolding insert
  insert-IsKeyed va m [] e k = (e, tt)
  insert-IsKeyed va m ((j, w) ∷ rest) e (k, ks) = ground (arith, insert-IsKeyed va m rest e ks)

  module _ (g : PageMetadata D → PageMetadata D) where
    pub update_all-IsKeyed :
        ((m : PageMetadata D) → (g m).page_va ≡ m.page_va)
        → (pages : OrderedMap (PageMetadata D)) → IsKeyed pages
        → IsKeyed (update_all g pages)
    unfolding update_all
    update_all-IsKeyed same [] k = tt
    update_all-IsKeyed same ((j, m) ∷ rest) (k, ks) = (same m ∙ k, update_all-IsKeyed same rest ks)

    pub update_all-fast_count :
        ((m : PageMetadata D) → (g m).current_node ≡ m.current_node)
        → (pages : OrderedMap (PageMetadata D)) → fast_count (update_all g pages) ≡ fast_count pages
    unfolding update_all
    update_all-fast_count same [] = refl
    update_all-fast_count same ((j, m) ∷ rest) = rw (same m, update_all-fast_count same rest)
