-- ===== src/Sorting/Insertion.antt =====
-- Insertion sort keeps the contract, so the contract can be met and tests can run.
use mathlib.Core.List.{Perm}
use mathlib.Core.List.Perm
use os_research_codebase.Prelude.{
  ◌≡◌, inl, inr, Bool, true, false, if◌then◌else◌, List, [], ◌∷◌, All, Bool-cases,
}
use os_research_codebase.Sorting.Contract.{StrictWeak, IsSortedBy, Sorter}

module _ {A : Type 0} (comp : A → A → Bool) where
  place : A → List A → List A
  place x [] = x ∷ []
  place x (y ∷ ys) = if comp y x then y ∷ place x ys else x ∷ y ∷ ys

  unfoldable pub insertion_sort : List A → List A
  unfolding place
  insertion_sort [] = []
  insertion_sort (x ∷ xs) = place x (insertion_sort xs)

  place-perm : (x : A) (ys : List A) → Perm (place x ys) (x ∷ ys)
  unfolding place
  place-perm x [] = Perm.rfl
  place-perm x (y ∷ ys) = elim (Bool-cases (comp y x)) [
    | inl e ↦ rw (e, place) (Perm.trans (Perm.cons y (place-perm x ys)) (Perm.swap x y ys))
    | inr e ↦ rw (e, place) Perm.rfl
  ]

  pub insertion_sort-perm : (xs : List A) → Perm (insertion_sort xs) xs
  unfolding insertion_sort
  insertion_sort-perm [] = Perm.rfl
  insertion_sort-perm (x ∷ xs) =
      Perm.trans (place-perm x (insertion_sort xs)) (Perm.cons x (insertion_sort-perm xs))

  place-All {ℓ} : (P : A → Type ℓ) (x : A) (ys : List A) → P x → All P ys → All P (place x ys)
  unfolding place
  place-All P x [] p q = (p, tt)
  place-All P x (y ∷ ys) p (q, qs) = elim (Bool-cases (comp y x)) [
    | inl e ↦ rw (e, place) (q, place-All P x ys p qs)
    | inr e ↦ rw (e, place) (p, (q, qs))
  ]

  insertion_sort-All {ℓ} : (P : A → Type ℓ) (xs : List A) → All P xs → All P (insertion_sort xs)
  unfolding insertion_sort
  insertion_sort-All P [] p = tt
  insertion_sort-All P (x ∷ xs) (p, ps) =
      place-All P x (insertion_sort xs) p (insertion_sort-All P xs ps)

module _ {A : Type 0} (valid : A → Bool) (comp : A → A → Bool) (w : StrictWeak valid comp) where
  -- `x` does not come after anything behind `y`, if it does not come after `y`.
  place_below :
      (x y : A) (zs : List A)
      → valid x ≡ true
      → valid y ≡ true
      → All (λ z. valid z ≡ true) zs
      → comp y x ≡ false
      → All (λ z. comp z y ≡ false) zs
      → All (λ z. comp z x ≡ false) zs
  place_below x y [] vx vy vs e s = tt
  place_below x y (z ∷ zs) vx vy (v, vs) e (s, ss) = (
    elim (Bool-cases (comp z x)) [
      | inl h ↦ elim (w.split z y x v vy vx h) [ inl p ↦ absurd (cc) | inr p ↦ absurd (cc) ]
      | inr h ↦ h
    ],
    place_below x y zs vx vy vs e ss,
  )

  place-IsSortedBy :
      (x : A) (ys : List A)
      → valid x ≡ true
      → All (λ y. valid y ≡ true) ys
      → IsSortedBy comp ys
      → IsSortedBy comp (place comp x ys)
  unfolding place
  place-IsSortedBy x [] vx vs s = (tt, tt)
  place-IsSortedBy x (y ∷ ys) vx (vy, vs) (b, s) = elim (Bool-cases (comp y x)) [
    | inl e ↦
        rw (e, place)
          (
            place-All comp (λ z. comp z y ≡ false) x ys (w.asymm y x vy vx e) b,
            place-IsSortedBy x ys vx vs s,
          )
    | inr e ↦ rw (e, place) ((e, place_below x y ys vx vy vs e b), (b, s))
  ]

  pub insertion_sort-IsSortedBy :
      (xs : List A) → All (λ x. valid x ≡ true) xs → IsSortedBy comp (insertion_sort comp xs)
  unfolding insertion_sort
  insertion_sort-IsSortedBy [] vs = tt
  insertion_sort-IsSortedBy (x ∷ xs) (v, vs) =
      place-IsSortedBy x (insertion_sort comp xs) v
        (insertion_sort-All comp (λ y. valid y ≡ true) xs vs) (insertion_sort-IsSortedBy xs vs)

abbrev pub insertion_sorter : (A : Type 0) → Sorter A
insertion_sorter A = record {
  sort = insertion_sort;
  sort-perm = λ comp xs s. insertion_sort-perm comp xs;
  sort-IsSortedBy = λ valid comp w xs vs. insertion_sort-IsSortedBy valid comp w xs vs;
}
