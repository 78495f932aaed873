-- ===== src/TierManager/Nodes/Refresh.antt =====
-- What `update_page_nodes` makes of each page, and that it counts the fast tier afresh.
use os_research_codebase.Prelude.{
  ℕ, ◌≡◌, refl, false, ltb, ◌==◌, if◌then◌else◌, List, [], ◌∷◌, map, Option, none, some, ℤ, pos,
  ◌==ℤ◌, ltb_ℤ, length, replicate, arith, inl, inr, List-cases, ◌⊎◌, ap, ◌∙◌, sym,
}
use os_research_codebase.Float.{Float}
use os_research_codebase.OrderedMap.{OrderedMap, find, Above, IsAscending, find-Above}
use os_research_codebase.Page.{PageMetadata}
use os_research_codebase.TierManager.{TierManager, Kernel, Reply}
use os_research_codebase.TierManager.Nodes.{cold_purge_threshold, refresh, update_page_nodes}
use os_research_codebase.TierManager.Migration.Counts.{fast_count}
use os_research_codebase.TierManager.Invariant.{IsKeyed, Synced}

module _ {D : Type 0} where
  -- What becomes of a page with the status `s`.
  pub fate : ℤ → PageMetadata D → Option (PageMetadata D)
  fate s m =
      if ltb_ℤ s (pos 0)
      then none
      else if s ==ℤ pos 0
      then some (record m { current_node = s })
      else if ltb cold_purge_threshold m.epochs_since_access
      then none
      else some (record m { current_node = s })

  abbrev pub both : Option ℤ → Option (PageMetadata D) → Option (PageMetadata D)
  both none o = none
  both (some s) none = none
  both (some s) (some m) = fate s m

  -- The status that the kernel gave for each page.
  abbrev pub statuses : List ℤ → OrderedMap (PageMetadata D) → OrderedMap ℤ
  statuses [] pages = []
  statuses (s ∷ status) [] = []
  statuses (s ∷ status) ((va, m) ∷ pages) = (va, s) ∷ statuses status pages

module _ {D : Type 0} ⦃f : Float D⦄ where
  refresh-Above :
      (k : ℕ) (status : List ℤ) (pages : OrderedMap (PageMetadata D))
      → Above k pages
      → Above k (refresh status pages).0
  unfolding refresh
  refresh-Above k status [] a = tt
  refresh-Above k [] ((va, m) ∷ pages) a = a
  refresh-Above k (s ∷ status) ((va, m) ∷ pages) (a, as') =
      ground (arith, refresh-Above k status pages as')

  pub refresh-IsAscending :
      (status : List ℤ) (pages : OrderedMap (PageMetadata D))
      → IsAscending pages
      → IsAscending (refresh status pages).0
  unfolding refresh
  refresh-IsAscending status [] a = tt
  refresh-IsAscending [] ((va, m) ∷ pages) a = a
  refresh-IsAscending (s ∷ status) ((va, m) ∷ pages) (b, a) =
      ground (arith, refresh-IsAscending status pages a, refresh-Above va status pages b)

  pub refresh-IsKeyed :
      (status : List ℤ) (pages : OrderedMap (PageMetadata D))
      → IsKeyed pages
      → IsKeyed (refresh status pages).0
  unfolding refresh
  refresh-IsKeyed status [] k = tt
  refresh-IsKeyed [] ((va, m) ∷ pages) k = k
  refresh-IsKeyed (s ∷ status) ((va, m) ∷ pages) (k, ks) =
      ground (arith, refresh-IsKeyed status pages ks)

  refresh-fast_count :
      (status : List ℤ) (pages : OrderedMap (PageMetadata D))
      → length status ≡ length pages
      → (refresh status pages).1 ≡ fast_count (refresh status pages).0
  unfolding refresh
  refresh-fast_count status [] e = refl
  refresh-fast_count [] ((va, m) ∷ pages) e = absurd (omega arith)
  refresh-fast_count (s ∷ status) ((va, m) ∷ pages) e =
      ground (arith, refresh-fast_count status pages)

  abbrev attach :
      ℕ → Option (PageMetadata D) → OrderedMap (PageMetadata D) → OrderedMap (PageMetadata D)
  attach va none rest = rest
  attach va (some m) rest = (va, m) ∷ rest

  refresh-cons :
      (s : ℤ) (status : List ℤ) (va : ℕ) (m : PageMetadata D) (pages : OrderedMap (PageMetadata D))
      → (refresh (s ∷ status) ((va, m) ∷ pages)).0 ≡ attach va (fate s m) (refresh status pages).0
  unfolding refresh fate
  refresh-cons s status va m pages = ground arith

  find-attach :
      (k va : ℕ) (o : Option (PageMetadata D)) (rest : OrderedMap (PageMetadata D))
      → find va rest ≡ none
      → find k (attach va o rest) ≡ (if k == va then o else find k rest)
  unfolding find
  find-attach k va none rest e = ground arith
  find-attach k va (some m) rest e = refl

  -- Each page's fate is decided by its own status.
  pub find-refresh :
      (k : ℕ) (status : List ℤ) (pages : OrderedMap (PageMetadata D))
      → length status ≡ length pages
      → IsAscending pages
      → find k (refresh status pages).0 ≡ both (find k (statuses status pages)) (find k pages)
  unfolding find
  find-refresh k [] [] e a = unfold refresh in refl
  find-refresh k (s ∷ status) [] e a = absurd (omega arith)
  find-refresh k [] ((va, m) ∷ pages) e a = absurd (omega arith)
  find-refresh k (s ∷ status) ((va, m) ∷ pages) e (b, a) =
      rw
        (
          refresh-cons s status va m pages,
          find-attach k va (fate s m) (refresh status pages).0
              (find-Above va _ (refresh-Above va status pages b)),
        )
        (ground (arith, find-refresh k status pages (omega arith) a))

  nothing_tracked :
      (k : ℕ) (status : List ℤ) (pages : OrderedMap (PageMetadata D))
      → pages ≡ []
      → find k pages ≡ both (find k (statuses status pages)) (find k pages)
  unfolding find
  nothing_tracked k [] [] e = refl
  nothing_tracked k (s ∷ status) [] e = refl
  nothing_tracked k status (p ∷ pages) e = absurd (ground arith)

  module _ (kernel : Kernel D) (mgr : TierManager D) where
    -- The answer to the query for all the tracked pages.
    abbrev pub query_reply : Reply
    query_reply =
        kernel.query (map (λ e. e.0) mgr.pages_meta)
          (replicate (length (map (λ e. e.0) mgr.pages_meta)) (pos 0))

    pub refreshed :
        query_reply.ret ≡ pos 0
        → ((mgr.pages_meta ≡ []) × (update_page_nodes kernel mgr ≡ mgr))
          ⊎ (update_page_nodes kernel mgr ≡ record mgr {
            pages_meta = (refresh query_reply.status mgr.pages_meta).0;
            fast_tier_count = (refresh query_reply.status mgr.pages_meta).1;
          })
    unfolding update_page_nodes
    refreshed ok = elim (List-cases mgr.pages_meta) [
      | inl e ↦ inl (e, ground arith)
      | inr (p, ps, e) ↦ inr (ground arith)
    ]

    -- After a query that succeeds with a status for each page, the map is in order with its keys the
    -- pages' addresses, and the count of the fast tier is right, whatever it was before if there are
    -- pages. An empty map is not queried and keeps its count, which is then to be zero.
    pub update_page_nodes-Synced :
        IsAscending mgr.pages_meta
        → IsKeyed mgr.pages_meta
        → (mgr.pages_meta ≡ [] → mgr.fast_tier_count ≡ 0)
        → query_reply.ret ≡ pos 0
        → length query_reply.status ≡ length mgr.pages_meta
        → Synced (update_page_nodes kernel mgr)
    update_page_nodes-Synced a k z ok full = elim (refreshed ok) [
      | inl (e, same) ↦
          rw same (record { ascending = a; keyed = k; counted = z e ∙ sym (ap fast_count e) })
      | inr changed ↦ rw changed (record {
        ascending = refresh-IsAscending query_reply.status mgr.pages_meta a;
        keyed = refresh-IsKeyed query_reply.status mgr.pages_meta k;
        counted = refresh-fast_count query_reply.status mgr.pages_meta full;
      })
    ]

    -- After a query that succeeds with a status for each page of a map in order, a page has the node
    -- of its status, and is forgotten if the
    -- status is negative, or if it is a slow node and the page was idle for over fifty epochs.
    pub update_page_nodes-fate :
        (va : ℕ)
        → IsAscending mgr.pages_meta
        → query_reply.ret ≡ pos 0
        → length query_reply.status ≡ length mgr.pages_meta
        → find va (update_page_nodes kernel mgr).pages_meta
          ≡ both (find va (statuses query_reply.status mgr.pages_meta)) (find va mgr.pages_meta)
    update_page_nodes-fate va a ok full = elim (refreshed ok) [
      | inl (e, same) ↦
          ap (λ m. find va m.pages_meta) same
          ∙ nothing_tracked va query_reply.status mgr.pages_meta e
      | inr changed ↦
          ap (λ m. find va m.pages_meta) changed
          ∙ find-refresh va query_reply.status mgr.pages_meta full a
    ]

    -- A query that fails changes nothing.
    pub update_page_nodes_failed :
        (query_reply.ret ==ℤ pos 0) ≡ false → update_page_nodes kernel mgr ≡ mgr
    unfolding update_page_nodes
    update_page_nodes_failed bad = elim (List-cases mgr.pages_meta) [
      | inl e ↦ ground arith
      | inr (p, ps, e) ↦ ground arith
    ]
