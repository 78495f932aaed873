-- ===== src/Float/Fixed.antt =====
-- Fixed-point numbers with six decimals: an instance of the arithmetic at which tests can run.
-- The functions `sqrt`, `exp` and `log1p` are coarse.
use os_research_codebase.Prelude.{
  ℕ, zero, suc, ◌+◌, ◌*◌, ◌/◌, ◌^◌, Bool, true, if◌then◌else◌, leb, ℤ, pos, sub_ℕ, pos_part,
  neg_part, ltb_ℤ, leb_ℤ, ◌+ℤ◌, ◌-ℤ◌, arith,
}
use os_research_codebase.Float.{Float, FloatOrder}

abbrev scale : ℕ
scale = 1000000

-- |a|
magnitude : ℤ → ℕ
magnitude a = pos_part a + neg_part a

-- The number of magnitude `n` with the sign of the product of `a` and `b`.
signed_as : ℤ → ℤ → ℕ → ℤ
signed_as a b n =
    if ltb_ℤ a (pos 0)
    then (if ltb_ℤ b (pos 0) then pos n else sub_ℕ 0 n)
    else (if ltb_ℤ b (pos 0) then sub_ℕ 0 n else pos n)

fixed_mul : ℤ → ℤ → ℤ
unfolding magnitude signed_as
fixed_mul a b = signed_as a b (magnitude a * magnitude b / scale)

fixed_div : ℤ → ℤ → ℤ
unfolding magnitude signed_as
fixed_div a b = signed_as a b (magnitude a * scale / magnitude b)

-- The integer square root below `r`, by search downwards.
root_below : ℕ → ℕ → ℕ
root_below zero n = 0
root_below (suc r) n = let rest = root_below r n in if leb (suc r * suc r) n then suc r else rest

fixed_sqrt : ℤ → ℤ
unfolding root_below
fixed_sqrt a = pos (root_below 100 (pos_part a / scale) * scale)

abbrev fixed_log1p : ℤ → ℤ
fixed_log1p a = a

-- 1 + a
abbrev fixed_exp : ℤ → ℤ
fixed_exp a = a +ℤ pos scale

instance unfoldable pub fixed : Float ℤ
unfolding fixed_mul fixed_div fixed_sqrt ◌+ℤ◌ ◌-ℤ◌ magnitude signed_as
fixed = record {
  of_int = λ a. fixed_mul a (pos (scale * scale));
  decimal = λ m k. pos (m * scale / 10 ^ k);
  add = ◌+ℤ◌;
  sub = ◌-ℤ◌;
  mul = fixed_mul;
  div = fixed_div;
  neg = λ a. pos 0 -ℤ a;
  sqrt = fixed_sqrt;
  exp = fixed_exp;
  log1p = fixed_log1p;
  lt = ltb_ℤ;
  le = leb_ℤ;
  to_int = λ a. fixed_div a (pos (scale * scale));
}

abbrev pub every_fixed : ℤ → Bool
every_fixed a = true

pub fixed-FloatOrder : FloatOrder fixed every_fixed
unfolding fixed
fixed-FloatOrder = record {
  lt_asymm = λ a b h. ground arith;
  lt_trans = λ a b c h k. ground arith;
  lt_split = λ a b c n h. ground arith;
}
