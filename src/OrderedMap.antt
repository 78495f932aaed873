-- ===== src/OrderedMap.antt =====
-- `std::map<uintptr_t, V>`: an association list whose keys ascend, which is the order in which the
-- source's range loops visit a map.
pub mod Counting
use os_research_codebase.Prelude.{
  ℕ, ◌<◌, ◌≡◌, refl, Bool, true, false, ltb, ◌==◌, if◌then◌else◌, List, [], ◌∷◌, map, Option, none,
  some, arith, All,
}

abbrev pub OrderedMap : Type 0 → Type 0
OrderedMap V = List (ℕ × V)

module _ {V : Type 0} where
  unfoldable pub find : ℕ → OrderedMap V → Option V
  find k [] = none
  find k ((j, v) ∷ m) = if k == j then some v else find k m

  -- `m[k] = v`
  unfoldable pub insert : ℕ → V → OrderedMap V → OrderedMap V
  insert k v [] = (k, v) ∷ []
  insert k v ((j, w) ∷ m) =
      if ltb k j then (k, v) ∷ (j, w) ∷ m else if k == j then (k, v) ∷ m else (j, w) ∷ insert k v m

  -- `for (auto& [key, value] : m) value = f(value);`
  unfoldable pub update_all : (V → V) → OrderedMap V → OrderedMap V
  update_all g [] = []
  update_all g ((k, v) ∷ m) = (k, g v) ∷ update_all g m

  abbrev pub Above : ℕ → OrderedMap V → Type 0
  Above k m = All (λ e. k < e.0) m

  abbrev pub IsAscending : OrderedMap V → Type 0
  IsAscending [] = Unit {0}
  IsAscending ((k, v) ∷ m) = Above k m × IsAscending m

  pub find-insert :
      (k j : ℕ) (v : V) (m : OrderedMap V)
      → find k (insert j v m) ≡ (if k == j then some v else find k m)
  unfolding find insert
  find-insert k j v [] = refl
  find-insert k j v ((i, w) ∷ m) = ground (arith, find-insert k j v m)

  pub Above-mono : (a b : ℕ) (m : OrderedMap V) → a < b → Above b m → Above a m
  Above-mono a b [] h x = tt
  Above-mono a b ((k, v) ∷ m) h (x, xs) = (omega arith, Above-mono a b m h xs)

  pub insert-Above :
      (a k : ℕ) (v : V) (m : OrderedMap V) → a < k → Above a m → Above a (insert k v m)
  unfolding insert
  insert-Above a k v [] h x = (h, tt)
  insert-Above a k v ((j, w) ∷ m) h (x, xs) = ground (arith, insert-Above a k v m h xs)

  pub insert-IsAscending :
      (k : ℕ) (v : V) (m : OrderedMap V) → IsAscending m → IsAscending (insert k v m)
  unfolding insert
  insert-IsAscending k v [] x = (tt, tt)
  insert-IsAscending k v ((j, w) ∷ m) (x, xs) =
      ground (arith, insert-IsAscending k v m xs, insert-Above j k v m, Above-mono k j m)

  pub update_all-Above :
      (g : V → V) (a : ℕ) (m : OrderedMap V) → Above a m → Above a (update_all g m)
  unfolding update_all
  update_all-Above g a [] x = tt
  update_all-Above g a ((k, v) ∷ m) (x, xs) = (x, update_all-Above g a m xs)

  pub update_all-IsAscending :
      (g : V → V) (m : OrderedMap V) → IsAscending m → IsAscending (update_all g m)
  unfolding update_all
  update_all-IsAscending g [] x = tt
  update_all-IsAscending g ((k, v) ∷ m) (x, xs) =
      (update_all-Above g k m x, update_all-IsAscending g m xs)

  pub find-Above : (k : ℕ) (m : OrderedMap V) → Above k m → find k m ≡ none
  unfolding find
  find-Above k [] x = refl
  find-Above k ((j, v) ∷ m) (x, xs) = ground (arith, find-Above k m xs)
