-- ===== src/Sorting/Sorted.antt =====
-- What clients need of sorted lists: their suffixes, and predicates on all the elements.
use mathlib.Core.List.{Perm, Permᴰ}
use mathlib.Core.Logic.{∥∥₁_elim}
use os_research_codebase.Prelude.{◌≡◌, Bool, true, List, [], ◌∷◌, ◌++◌, All, subst}
use os_research_codebase.Sorting.Contract.{IsSortedBy}

module _ {A : Type 0} where
  pub IsSortedBy-suffix :
      (comp : A → A → Bool) (xs ys : List A) → IsSortedBy comp (xs ++ ys) → IsSortedBy comp ys
  IsSortedBy-suffix comp [] ys s = s
  IsSortedBy-suffix comp (x ∷ xs) ys (b, s) = IsSortedBy-suffix comp xs ys s

  pub All-suffix {ℓ} : (P : A → Type ℓ) (xs ys : List A) → All P (xs ++ ys) → All P ys
  All-suffix P [] ys s = s
  All-suffix P (x ∷ xs) ys (p, s) = All-suffix P xs ys s

  pub All-zip {ℓ} :
      (P Q R : A → Type ℓ)
      → ((a : A) → P a → Q a → R a)
      → (xs : List A) → All P xs
      → All Q xs
      → All R xs
  All-zip P Q R h [] p q = tt
  All-zip P Q R h (x ∷ xs) (p, ps) (q, qs) = (h x p q, All-zip P Q R h xs ps qs)

  module _ (valid : A → Bool) where
    abbrev pub AllValid : List A → Type 0
    AllValid = All (λ x. valid x ≡ true)

    pub AllValid-prop : (xs : List A) → IsProp (AllValid xs)
    AllValid-prop [] = hlevel
    AllValid-prop (x ∷ xs) = hlevel (AllValid-prop xs)

    pub AllValid-permᴰ : (xs ys : List A) → Permᴰ xs ys → AllValid xs → AllValid ys
    AllValid-permᴰ xs ys Permᴰ.nil v = tt
    AllValid-permᴰ xs ys (Permᴰ.cons {l₁ = l₁} {l₂ = l₂} e p) (v, vs) =
        (subst (λ x. valid x ≡ true) e v, AllValid-permᴰ l₁ l₂ p vs)
    AllValid-permᴰ xs ys (Permᴰ.swap e e') (v, (v', vs)) =
        (subst (λ x. valid x ≡ true) e' v', (subst (λ x. valid x ≡ true) e v, vs))
    AllValid-permᴰ xs ys (Permᴰ.trans {l₂ = l₂} p q) v =
        AllValid-permᴰ l₂ ys q (AllValid-permᴰ xs l₂ p v)

    pub AllValid-perm : (xs ys : List A) → Perm xs ys → AllValid xs → AllValid ys
    AllValid-perm xs ys p v = ∥∥₁_elim p (AllValid-prop ys) (λ q. AllValid-permᴰ xs ys q v)
