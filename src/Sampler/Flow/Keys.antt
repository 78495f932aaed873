-- ===== src/Sampler/Flow/Keys.antt =====
-- Sums over the keys that `EbpfSampler::sample_epoch` of daemon/ebpf_sampler.cpp visits.
use os_research_codebase.Prelude.{
  ℕ, ◌+◌, ◌≡◌, refl, Bool, true, false, ◌&&◌, ◌==◌, if◌then◌else◌, List, [], ◌∷◌, arith, count,
  Bool-cases, inl, inr,
}
use os_research_codebase.Sorting.{Distinct, AllValid, differs}
use os_research_codebase.Sampler.BpfMap.{BpfMap}
use os_research_codebase.Sampler.Program.{Event, page_of, is_relevant}
use os_research_codebase.Sampler.BpfMap.{is_among}

-- The sum of `g` over the keys.
abbrev pub key_sum : (ℕ → ℕ) → List ℕ → ℕ
key_sum g [] = 0
key_sum g (k ∷ ks) = g k + key_sum g ks

-- It depends on the values at the keys alone.
pub key_sum-ext :
    (g h : ℕ → ℕ) (keys : List ℕ)
    → ((k : ℕ) → is_among k keys ≡ true → g k ≡ h k)
    → key_sum g keys ≡ key_sum h keys
key_sum-ext g h [] e = refl
key_sum-ext g h (k ∷ ks) e =
    omega (arith, e k (ground arith), key_sum-ext g h ks (λ j a. e j (ground (arith, a))))

key_sum-add :
    (g h : ℕ → ℕ) (keys : List ℕ) → key_sum (λ k. g k + h k) keys ≡ key_sum g keys + key_sum h keys
key_sum-add g h [] = omega arith
key_sum-add g h (k ∷ ks) = omega (arith, key_sum-add g h ks)

-- One, if it counts, at the key `v`.
abbrev at_key : Bool → ℕ → ℕ → ℕ
at_key c v k = if c && k == v then 1 else 0

absent :
    (c : Bool) (v : ℕ) (keys : List ℕ)
    → AllValid (differs v) keys
    → (key_sum (at_key c v) keys ≡ 0) × (is_among v keys ≡ false)
absent c v [] d = (refl, refl)
absent c v (k ∷ ks) (d, ds) = ground (arith, absent c v ks ds)

key_sum-at_key :
    (c : Bool) (v : ℕ) (keys : List ℕ)
    → Distinct keys
    → key_sum (at_key c v) keys ≡ (if is_among v keys && c then 1 else 0)
key_sum-at_key c v [] d = refl
key_sum-at_key c v (k ∷ ks) (d, ds) = elim (Bool-cases (k == v)) [
  | inl e ↦ ground (arith, key_sum-at_key c v ks ds, absent c k ks d)
  | inr e ↦ ground (arith, key_sum-at_key c v ks ds)
]

-- Whether a sample counts for a key.
abbrev pub falls_on_key : {M : Type 0} → BpfMap M → ℕ → ℕ → Event → Bool
falls_on_key b target k e = is_relevant b target e && k == page_of e.addr

module _ {M : Type 0} (b : BpfMap M) (q : ℕ → Bool) (target : ℕ) where
  -- Whether a sample counts for a key that passes the test.
  abbrev pub passes : Event → Bool
  passes e = is_relevant b target e && q (page_of e.addr)

  abbrev pub share : List Event → ℕ → ℕ
  share es k = if q k then count (falls_on_key b target k) es else 0

  share_cons :
      (e : Event) (es : List Event) (k : ℕ)
      → share (e ∷ es) k ≡ at_key (passes e) (page_of e.addr) k + share es k
  share_cons e es k = ground arith

  share_nil : (keys : List ℕ) → key_sum (share []) keys ≡ 0
  share_nil [] = refl
  share_nil (k ∷ ks) = ground (arith, share_nil ks)

  -- The samples that pass are distributed over distinct keys, if no sample falls on another key.
  pub key_sum-count :
      (keys : List ℕ) (es : List Event)
      → Distinct keys
      → ((k : ℕ) → is_among k keys ≡ false → count (falls_on_key b target k) es ≡ 0)
      → key_sum (share es) keys ≡ count passes es
  key_sum-count keys [] d h = share_nil keys
  key_sum-count keys (e ∷ es) d h = ground (
    arith,
    key_sum-ext (share (e ∷ es)) (λ k. at_key (passes e) (page_of e.addr) k + share es k) keys
        (λ k a. share_cons e es k),
    key_sum-add (at_key (passes e) (page_of e.addr)) (share es) keys,
    key_sum-at_key (passes e) (page_of e.addr) keys d,
    key_sum-count keys es d (λ k a. fewer k (h k a)),
    h (page_of e.addr),
  )
    where
      fewer :
          (k : ℕ)
          → count (falls_on_key b target k) (e ∷ es) ≡ 0
          → count (falls_on_key b target k) es ≡ 0
      fewer k z = ground arith
