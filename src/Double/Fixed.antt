-- ===== src/Double/Fixed.antt =====
-- A concrete `double` for tests and witnesses: decimal fixed point with nine digits after the
-- point, and `none` for every value that is not finite. It meets the laws, and it runs.
use zero_force_controller.Common.{
  ℕ, zero, suc, ◌+◌, ◌*◌, ◌/◌, ◌^◌, Bool, true, false, Option, none, some, arith, leb,
  if◌then◌else◌,
}
use zero_force_controller.Common.Int.{
  ℤ, pos, pos_part, neg_part, sub_ℕ, neg, ltb_ℤ, leb_ℤ, eqb_ℤ, ◌+ℤ◌, ◌-ℤ◌, ◌*ℤ◌,
}
use zero_force_controller.Double.{Double}
use zero_force_controller.Double.Laws.{IsIeee}

abbrev pub Fixed : Type 0
Fixed = Option ℤ

abbrev unit : ℕ
unit = 1_000_000_000

abbrev test : (ℤ → ℤ → Bool) → Fixed → Fixed → Bool
test f (some a) (some b) = f a b
test f _ _ = false

abbrev lift : (ℤ → ℤ → ℤ) → Fixed → Fixed → Fixed
lift f (some a) (some b) = some (f a b)
lift f _ _ = none

abbrev lift_one : (ℤ → ℤ) → Fixed → Fixed
lift_one f (some a) = some (f a)
lift_one f none = none

-- division towards zero
abbrev quotient : ℤ → ℕ → ℤ
quotient a n = if leb 1 (pos_part a) then pos (pos_part a / n) else neg (pos (neg_part a / n))

unfoldable pub multiply : ℤ → ℤ → ℤ
unfolding ◌*ℤ◌
multiply a b = quotient (a *ℤ b) unit

unfoldable pub divide : ℤ → ℤ → ℤ
divide a b =
    if leb 1 (pos_part b)
    then quotient (sub_ℕ (pos_part a * unit) (neg_part a * unit)) (pos_part b)
    else quotient (sub_ℕ (neg_part a * unit) (pos_part a * unit)) (neg_part b)

root : ℕ → ℕ → ℕ → ℕ
root zero n r = r
root (suc k) n r = root k n (if leb ((r + 2 ^ k) * (r + 2 ^ k)) n then r + 2 ^ k else r)

unfoldable pub square_root : ℤ → ℤ
unfolding root
square_root a = pos (root 40 (pos_part a * unit) 0)

-- 1 + x + x² / 2
unfoldable pub exponential : ℤ → ℤ
unfolding multiply ◌+ℤ◌
exponential a = pos unit +ℤ a +ℤ quotient (multiply a a) 2

abbrev with_sign : ℤ → ℤ → ℤ
with_sign a b =
    if ltb_ℤ b (pos 0) then neg (pos (pos_part a + neg_part a)) else pos (pos_part a + neg_part a)

abbrev truncated : ℤ → ℤ
truncated a = quotient a unit

abbrev scaled : ℤ → ℤ
scaled a = sub_ℕ (pos_part a * unit) (neg_part a * unit)

instance abbrev pub fixed_double : Double Fixed
fixed_double = record {
  le = test leb_ℤ;
  lt = test ltb_ℤ;
  eq = test eqb_ℤ;
  add = lift ◌+ℤ◌;
  sub = lift ◌-ℤ◌;
  mul = lift multiply;
  div = lift divide;
  negate = lift_one neg;
  fabs = lift_one λ a. pos (pos_part a + neg_part a);
  is_finite = λ x. elim x [ none ↦ false | some a ↦ true ];
  copysign = lift with_sign;
  trunc = lift_one λ a. scaled (truncated a);
  round = lift_one λ a. scaled (truncated (a +ℤ with_sign (pos 500_000_000) a));
  ceil = lift_one λ a. scaled (quotient (a +ℤ pos 999_999_999) unit);
  sqrt = lift_one square_root;
  exp = lift_one exponential;
  of_int = λ n. some (scaled n);
  to_int = λ x. elim x [ none ↦ pos 0 | some a ↦ truncated a ];
  lit = λ m k. some (pos (m * unit / 10 ^ k));
  nan = none;
}

pub Fixed-IsIeee : IsIeee Fixed
unfolding ◌+ℤ◌ ◌-ℤ◌ ◌*ℤ◌ multiply
Fixed-IsIeee = record {
  refl_of_le = ground arith;
  le_trans = ground arith;
  le_total = ground arith;
  lt-eq-not-le = ground arith;
  le_of_lt = ground arith;
  finite_refl = ground arith;
  finite_between = ground arith;
  nan_not_finite = ground arith;
  finite_add = ground arith;
  finite_mul = ground arith;
  negate_le_nought = ground arith;
  le-add_nonneg = ground arith;
  sub_nonneg-le = ground arith;
  mul_nonneg = ground arith;
  lit_nonneg = ground arith;
  lit_finite = ground arith;
  negate_finite = ground arith;
  round_num = ground arith;
  of_int_finite = ground arith;
  of_int_le = ground arith;
  trunc-of_int = ground arith;
  to_int-of_int = ground arith;
  to_int_bounds = ground arith;
}
