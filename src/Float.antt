-- ===== src/Float.antt =====
-- The arithmetic of `double`, which daemon/policy.cpp, daemon/cusum.cpp and daemon/tier_manager.cpp
-- use: a parameter of the model, since the language has no floating point numbers.
pub mod Fixed
use os_research_codebase.Prelude.{ℕ, ℤ, ◌≡◌, Bool, true, false, if◌then◌else◌, ◌⊎◌}

-- `of_int` is the conversion from an integer, `to_int` the one to an integer, which truncates, and `decimal m k` the literal m · 10^-k.
-- A comparison with a NaN is false, so `lt` is a test of its own and no order is assumed of it.
pub record Float (D : Type 0) : Type 0 where
  pub of_int : ℤ → D
  pub decimal : ℕ → ℕ → D
  pub add : D → D → D
  pub sub : D → D → D
  pub mul : D → D → D
  pub div : D → D → D
  pub neg : D → D
  pub sqrt : D → D
  pub exp : D → D
  pub log1p : D → D
  pub lt : D → D → Bool
  pub le : D → D → Bool
  pub to_int : D → ℤ

-- What IEEE 754 says of `<`. The first law holds of every pair, the second of any values that are
-- numbers: `is_number` is false at a NaN.
pub record FloatOrder {D : Type 0} (f : Float D) (is_number : D → Bool) : Type 0 where
  pub lt_asymm : (a b : D) → f.lt a b ≡ true → f.lt b a ≡ false
  pub lt_trans : (a b c : D) → f.lt a b ≡ true → f.lt b c ≡ true → f.lt a c ≡ true
  pub lt_split :
      (a b c : D) → is_number b ≡ true → f.lt a c ≡ true → (f.lt a b ≡ true) ⊎ (f.lt b c ≡ true)

module _ {D : Type 0} ⦃f : Float D⦄ where
  -- `std::max`
  abbrev pub max_of : D → D → D
  max_of a b = if f.lt a b then b else a
