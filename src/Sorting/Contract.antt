-- ===== src/Sorting/Contract.antt =====
-- What the C++ standard says of `std::sort`.
use os_research_codebase.Prelude.{◌≡◌, ◌⊎◌, inl, inr, Bool, true, false, List, [], ◌∷◌, All}
use mathlib.Core.List.{Perm}

-- A comparison is a strict weak order on the values that `valid` admits.
pub record StrictWeak {A : Type 0} (valid : A → Bool) (comp : A → A → Bool) : Type 0 where
  pub asymm : (a b : A) → valid a ≡ true → valid b ≡ true → comp a b ≡ true → comp b a ≡ false
  pub split :
      (a b c : A)
      → valid a ≡ true
      → valid b ≡ true
      → valid c ≡ true
      → comp a c ≡ true
      → (comp a b ≡ true) ⊎ (comp b c ≡ true)

pub reverse_StrictWeak :
    {A : Type 0} {valid : A → Bool} {comp : A → A → Bool}
    → StrictWeak valid comp
    → StrictWeak valid (λ a b. comp b a)
reverse_StrictWeak w = record {
  asymm = λ a b va vb h. w.asymm b a vb va h;
  split = λ a b c va vb vc h. swap_sides (w.split c b a vc vb va h);
}
  where
    swap_sides : {P Q : Type 0} → P ⊎ Q → Q ⊎ P
    swap_sides (inl p) = inr p
    swap_sides (inr q) = inl q

-- No element comes before an earlier one.
abbrev pub IsSortedBy : {A : Type 0} → (A → A → Bool) → List A → Type 0
IsSortedBy comp [] = Unit {0}
IsSortedBy comp (x ∷ xs) = All (λ y. comp y x ≡ false) xs × IsSortedBy comp xs

-- What the standard asks of a call: the comparison is a strict weak order on some values, and all the
-- elements are such values.
abbrev pub Sortable : {A : Type 0} → (A → A → Bool) → List A → Type 0
Sortable {A} comp xs = (valid : A → Bool) × StrictWeak valid comp × All (λ x. valid x ≡ true) xs

-- Of a call that is not sortable the standard says nothing.
pub record Sorter (A : Type 0) : Type 0 where
  pub sort : (A → A → Bool) → List A → List A
  pub sort-perm : (comp : A → A → Bool) (xs : List A) → Sortable comp xs → Perm (sort comp xs) xs
  pub sort-IsSortedBy :
      (valid : A → Bool) (comp : A → A → Bool)
      → StrictWeak valid comp
      → (xs : List A) → All (λ x. valid x ≡ true) xs
      → IsSortedBy comp (sort comp xs)
