-- ===== src/OrderedMap/Counting.antt =====
-- How an insertion changes the number of entries that pass a test.
use os_research_codebase.Prelude.{
  ℕ, ◌+◌, ◌≡◌, Bool, true, false, [], ◌∷◌, Option, none, some, arith, count,
}
use os_research_codebase.OrderedMap.{OrderedMap, find, insert, IsAscending, find-Above, Above-mono}

module _ {V : Type 0} (p : ℕ × V → Bool) where
  abbrev pub one_if : Bool → ℕ
  one_if true = 1
  one_if false = 0

  -- The old entry of the key, if it has one and it passes.
  abbrev pub old_entry : ℕ → Option V → ℕ
  old_entry k none = 0
  old_entry k (some v) = one_if (p (k, v))

  pub count-insert :
      (k : ℕ) (v : V) (m : OrderedMap V)
      → IsAscending m
      → count p (insert k v m) + old_entry k (find k m) ≡ count p m + one_if (p (k, v))
  unfolding find insert
  count-insert k v [] a = ground arith
  count-insert k v ((j, w) ∷ m) (x, xs) =
      ground (arith, count-insert k v m xs, find-Above k m, Above-mono k j m)
