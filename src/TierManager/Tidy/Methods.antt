-- ===== src/TierManager/Tidy/Methods.antt =====
-- The methods of the tier manager that make system calls leave the tracked pages tidy.
use os_research_codebase.Prelude.{
  ℕ, ◌≡◌, refl, true, List, [], ◌∷◌, Option, none, some, ℤ, pos, ◌==ℤ◌, ==ℤ_iff, All, arith,
  Bool-cases, inl, inr, length,
}
use os_research_codebase.Float.{Float}
use os_research_codebase.OrderedMap.{OrderedMap, find, insert}
use os_research_codebase.Page.{PageMetadata}
use os_research_codebase.TierManager.{TierManager, Kernel, Reply}
use os_research_codebase.TierManager.Migration.{or_zero, moved, mark_moved, migrate_pages}
use os_research_codebase.TierManager.Migration.Counts.{mark_moved-IsAscending}
use os_research_codebase.TierManager.Migration.Effects.{reply_status}
use os_research_codebase.TierManager.Nodes.{refresh, update_page_nodes}
use os_research_codebase.TierManager.Nodes.Refresh.{
  query_reply, refreshed, refresh-IsAscending, refresh-IsKeyed, update_page_nodes-Synced,
  update_page_nodes_failed,
}
use os_research_codebase.TierManager.Invariant.{
  IsKeyed, Synced, KeyedAt, find-KeyedAt, insert-IsKeyed,
}
use os_research_codebase.TierManager.Tidy.{
  NoneCounted, Tidy, Tracked, is_some, insert-NoneCounted, insert-Tracked, NoneCounted-at_empty,
}

module _ {D : Type 0} ⦃f : Float D⦄ where
  refresh-NoneCounted :
      (status : List ℤ) (pages : OrderedMap (PageMetadata D))
      → NoneCounted (refresh status pages).0 (refresh status pages).1
  unfolding refresh
  refresh-NoneCounted status [] = refl
  refresh-NoneCounted [] (entry ∷ pages) = tt
  refresh-NoneCounted (s ∷ status) ((va, m) ∷ pages) =
      ground (arith, refresh-NoneCounted status pages)

  -- Whatever the query replies.
  pub update_page_nodes-Tidy :
      (kernel : Kernel D) (mgr : TierManager D) → Tidy mgr → Tidy (update_page_nodes kernel mgr)
  update_page_nodes-Tidy kernel mgr y = elim (Bool-cases (reply.ret ==ℤ pos 0)) [
    | inr bad ↦ rw (update_page_nodes_failed kernel mgr bad) y
    | inl ok ↦ elim (refreshed kernel mgr ((==ℤ_iff reply.ret (pos 0)).0 ok)) [
      | inl (e, same) ↦ rw same y
      | inr changed ↦ rw changed (record {
        ascending = refresh-IsAscending reply.status mgr.pages_meta y.ascending;
        keyed = refresh-IsKeyed reply.status mgr.pages_meta y.keyed;
        none_counted = refresh-NoneCounted reply.status mgr.pages_meta;
      })
    ]
  ]
    where
      reply : Reply
      reply = query_reply kernel mgr

  -- If the query succeeds with a status for each page, the count of the fast tier is right again.
  pub update_page_nodes-recounts :
      (kernel : Kernel D) (mgr : TierManager D)
      → Tidy mgr
      → (query_reply kernel mgr).ret ≡ pos 0
      → length (query_reply kernel mgr).status ≡ length mgr.pages_meta
      → Synced (update_page_nodes kernel mgr)
  update_page_nodes-recounts kernel mgr y =
      update_page_nodes-Synced kernel mgr y.ascending y.keyed
        (NoneCounted-at_empty mgr.pages_meta mgr.fast_tier_count y.none_counted)

  moved-page_va :
      (target : ℤ) (va : ℕ) (o : Option (PageMetadata D))
      → KeyedAt va o
      → is_some o ≡ true
      → (moved target (or_zero o)).page_va ≡ va
  unfolding moved
  moved-page_va target va none k h = cc
  moved-page_va target va (some m) k h = k

  mark_moved-NoneCounted :
      (target : ℤ) (vas : List ℕ) (status : List ℤ) (pages : OrderedMap (PageMetadata D)) (n : ℕ)
      → NoneCounted pages n
      → NoneCounted (mark_moved target vas status pages).0 n
  unfolding mark_moved
  mark_moved-NoneCounted target [] status pages n h = h
  mark_moved-NoneCounted target (va ∷ vas) [] pages n h = h
  mark_moved-NoneCounted target (va ∷ vas) (s ∷ status) pages n h =
      elim (Bool-cases (s ==ℤ target)) [
        | inl e ↦
            rw (e, mark_moved)
              (mark_moved-NoneCounted target vas status _ n (insert-NoneCounted va _ pages n))
        | inr e ↦ rw (e, mark_moved) (mark_moved-NoneCounted target vas status pages n h)
      ]

  insert-All-Tracked :
      (va : ℕ) (m : PageMetadata D) (pages : OrderedMap (PageMetadata D)) (vas : List ℕ)
      → All (Tracked pages) vas
      → All (Tracked (insert va m pages)) vas
  insert-All-Tracked va m pages [] h = tt
  insert-All-Tracked va m pages (u ∷ us) (h, hs) =
      (insert-Tracked u va m pages h, insert-All-Tracked va m pages us hs)

  mark_moved-IsKeyed :
      (target : ℤ) (vas : List ℕ) (status : List ℤ) (pages : OrderedMap (PageMetadata D))
      → IsKeyed pages
      → All (Tracked pages) vas
      → IsKeyed (mark_moved target vas status pages).0
  unfolding mark_moved
  mark_moved-IsKeyed target [] status pages k h = k
  mark_moved-IsKeyed target (va ∷ vas) [] pages k h = k
  mark_moved-IsKeyed target (va ∷ vas) (s ∷ status) pages k (h, hs) =
      elim (Bool-cases (s ==ℤ target)) [
        | inl e ↦
            rw (e, mark_moved)
              (mark_moved-IsKeyed target vas status _
                (insert-IsKeyed va _ pages
                  (moved-page_va target va (find va pages) (find-KeyedAt va pages k) h) k)
                (insert-All-Tracked va _ pages vas hs))
        | inr e ↦ rw (e, mark_moved) (mark_moved-IsKeyed target vas status pages k hs)
      ]

  mark_moved-Tracked :
      (target : ℤ) (vas : List ℕ) (status : List ℤ) (pages : OrderedMap (PageMetadata D))
      (us : List ℕ)
      → All (Tracked pages) us
      → All (Tracked (mark_moved target vas status pages).0) us
  unfolding mark_moved
  mark_moved-Tracked target [] status pages us h = h
  mark_moved-Tracked target (va ∷ vas) [] pages us h = h
  mark_moved-Tracked target (va ∷ vas) (s ∷ status) pages us h = elim (Bool-cases (s ==ℤ target)) [
    | inl e ↦
        rw (e, mark_moved)
          (mark_moved-Tracked target vas status _ us (insert-All-Tracked va _ pages us h))
    | inr e ↦ rw (e, mark_moved) (mark_moved-Tracked target vas status pages us h)
  ]

  -- A migration of tracked pages, whichever of the moves succeed, leaves tracked what was tracked.
  pub migrate_pages-Tidy :
      (kernel : Kernel D) (vas : List ℕ) (target : ℤ) (mgr : TierManager D)
      → Tidy mgr
      → All (Tracked mgr.pages_meta) vas
      → Tidy (migrate_pages kernel vas target mgr)
  unfolding migrate_pages
  migrate_pages-Tidy kernel [] target mgr y h = y
  migrate_pages-Tidy kernel (va ∷ vas) target mgr y h = record {
    ascending =
        ground (arith, mark_moved-IsAscending target (va ∷ vas) status mgr.pages_meta y.ascending);
    keyed = ground (arith, mark_moved-IsKeyed target (va ∷ vas) status mgr.pages_meta y.keyed h);
    none_counted = ground (
      arith,
      mark_moved-NoneCounted target (va ∷ vas) status mgr.pages_meta mgr.fast_tier_count
          y.none_counted,
    );
  }
    where
      status : List ℤ
      status = reply_status kernel mgr (va ∷ vas) target

  pub migrate_pages-Tracked :
      (kernel : Kernel D) (vas : List ℕ) (target : ℤ) (mgr : TierManager D) (us : List ℕ)
      → All (Tracked mgr.pages_meta) us
      → All (Tracked (migrate_pages kernel vas target mgr).pages_meta) us
  unfolding migrate_pages
  migrate_pages-Tracked kernel [] target mgr us h = h
  migrate_pages-Tracked kernel (va ∷ vas) target mgr us h = ground (
    arith,
    mark_moved-Tracked target (va ∷ vas) (reply_status kernel mgr (va ∷ vas) target) mgr.pages_meta
        us h,
  )
