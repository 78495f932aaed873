-- ===== src/Sorting/Addresses.antt =====
-- Lists of addresses that hold none twice, and their permutations.
use mathlib.Core.List.{Perm, Permᴰ}
use mathlib.Core.Logic.{∥∥₁_elim}
use os_research_codebase.Prelude.{
  ℕ, ◌<◌, ◌≡◌, Bool, true, not, ◌==◌, List, [], ◌∷◌, ◌++◌, All, subst, arith,
}
use os_research_codebase.Sorting.Sorted.{AllValid, AllValid-prop, AllValid-permᴰ}

abbrev pub differs : ℕ → ℕ → Bool
differs a b = not (a == b)

abbrev pub Distinct : List ℕ → Type 0
Distinct [] = Unit {0}
Distinct (a ∷ as') = AllValid (differs a) as' × Distinct as'

Distinct-prop : (xs : List ℕ) → IsProp (Distinct xs)
Distinct-prop [] = hlevel
Distinct-prop (x ∷ xs) = hlevel (AllValid-prop (differs x) xs, Distinct-prop xs)

pub differs_symm : (a b : ℕ) → differs a b ≡ true → differs b a ≡ true
differs_symm a b h = ground arith

pub Distinct-permᴰ : (xs ys : List ℕ) → Permᴰ xs ys → Distinct xs → Distinct ys
Distinct-permᴰ xs ys Permᴰ.nil d = tt
Distinct-permᴰ xs ys (Permᴰ.cons {l₁ = l₁} {l₂ = l₂} e p) (d, ds) =
    (subst (λ x. AllValid (differs x) l₂) e (AllValid-permᴰ _ l₁ l₂ p d), Distinct-permᴰ l₁ l₂ p ds)
Distinct-permᴰ xs ys (Permᴰ.swap {a = a} {b = b} {b' = b'} {l = l} e e') ((d, ds), (k, ks)) =
    subst (λ x. Distinct (x ∷ b' ∷ l)) e'
      (subst (λ x. Distinct (b ∷ x ∷ l)) e ((differs_symm a b d, k), (ds, ks)))
Distinct-permᴰ xs ys (Permᴰ.trans {l₂ = l₂} p q) d =
    Distinct-permᴰ l₂ ys q (Distinct-permᴰ xs l₂ p d)

pub Distinct-perm : (xs ys : List ℕ) → Perm xs ys → Distinct xs → Distinct ys
Distinct-perm xs ys p d = ∥∥₁_elim p (Distinct-prop ys) (λ q. Distinct-permᴰ xs ys q d)

pub All-prefix {ℓ κ} : {A : Type ℓ} (P : A → Type κ) (xs ys : List A) → All P (xs ++ ys) → All P xs
All-prefix P [] ys a = tt
All-prefix P (x ∷ xs) ys (p, ps) = (p, All-prefix P xs ys ps)

pub Distinct-prefix : (xs ys : List ℕ) → Distinct (xs ++ ys) → Distinct xs
Distinct-prefix [] ys d = tt
Distinct-prefix (x ∷ xs) ys (d, ds) = (All-prefix _ xs ys d, Distinct-prefix xs ys ds)

pub above-Distinct : (a : ℕ) (xs : List ℕ) → All (λ x. a < x) xs → AllValid (differs a) xs
above-Distinct a [] h = tt
above-Distinct a (x ∷ xs) (h, hs) = (ground arith, above-Distinct a xs hs)
