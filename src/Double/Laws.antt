-- ===== src/Double/Laws.antt =====
-- What the theorems rely on of IEEE 754 arithmetic. Each law holds of the binary64 type with NaN
-- and infinities; a value that is not `<=` itself is NaN.
use zero_force_controller.Common.{
  ℕ, ◌^◌, ◌<◌, ◌≡◌, ◌⊎◌, inl, inr, true, false, not, arith, Bool-cases,
}
use zero_force_controller.Common.Int.{ℤ, ◌≤ℤ◌, IsI32}
use zero_force_controller.Double.{Double, ◌≼◌, nought, clamp}

pub record IsIeee (D : Type 0) ⦃d : Double D⦄ : Type 0 where
  pub refl_of_le : (x y : D) → x ≼ y → (x ≼ x) × (y ≼ y)
  pub le_trans : (x y z : D) → x ≼ y → y ≼ z → x ≼ z
  pub le_total : (x y : D) → x ≼ x → y ≼ y → (x ≼ y) ⊎ (y ≼ x)
  pub lt-eq-not-le : (x y : D) → x ≼ x → y ≼ y → d.lt x y ≡ not (d.le y x)
  pub le_of_lt : (x y : D) → d.lt x y ≡ true → x ≼ y
  pub finite_refl : (x : D) → d.is_finite x ≡ true → x ≼ x
  pub finite_between :
      (a x b : D)
      → d.is_finite a ≡ true
      → d.is_finite b ≡ true
      → a ≼ x
      → x ≼ b
      → d.is_finite x ≡ true
  pub nan_not_finite : d.is_finite d.nan ≡ false
  pub finite_add :
      (x y : D) → d.is_finite (d.add x y) ≡ true → (d.is_finite x ≡ true) × (d.is_finite y ≡ true)
  pub finite_mul :
      (x y : D) → d.is_finite (d.mul x y) ≡ true → (d.is_finite x ≡ true) × (d.is_finite y ≡ true)
  pub negate_le_nought : (x : D) → d.lt nought x ≡ true → d.negate x ≼ nought
  pub le-add_nonneg : (x y : D) → d.is_finite x ≡ true → nought ≼ y → x ≼ d.add x y
  pub sub_nonneg-le : (x y : D) → d.is_finite x ≡ true → nought ≼ y → d.sub x y ≼ x
  pub mul_nonneg :
      (x y : D)
      → d.is_finite x ≡ true
      → d.is_finite y ≡ true
      → nought ≼ x
      → nought ≼ y
      → nought ≼ d.mul x y
  pub lit_nonneg : (m k : ℕ) → nought ≼ d.lit m k
  pub lit_finite : (m k : ℕ) → m < 2 ^ 31 → d.is_finite (d.lit m k) ≡ true
  pub negate_finite : (x : D) → d.is_finite x ≡ true → d.is_finite (d.negate x) ≡ true
  pub round_num : (x : D) → d.is_finite x ≡ true → d.round x ≼ d.round x
  pub of_int_finite : (n : ℤ) → IsI32 n → d.is_finite (d.of_int n) ≡ true
  pub of_int_le : (m n : ℤ) → IsI32 m → IsI32 n → m ≤ℤ n → d.of_int m ≼ d.of_int n
  pub trunc-of_int : (n : ℤ) → IsI32 n → d.eq (d.trunc (d.of_int n)) (d.of_int n) ≡ true
  pub to_int-of_int : (n : ℤ) → IsI32 n → d.to_int (d.of_int n) ≡ n
  pub to_int_bounds :
      (m n : ℤ) (x : D)
      → IsI32 m
      → IsI32 n
      → d.of_int m ≼ x
      → x ≼ d.of_int n
      → (m ≤ℤ d.to_int x) × (d.to_int x ≤ℤ n)

module _ {D : Type 0} ⦃d : Double D⦄ (ieee : IsIeee D) where
  open d use {lt}
  open ieee use {refl_of_le, le_of_lt, lt-eq-not-le, le_trans}

  pub le_of_not_lt : (x y : D) → x ≼ x → y ≼ y → lt x y ≡ false → y ≼ x
  le_of_not_lt x y p q h = ground (arith, lt-eq-not-le x y p q)

  -- `std::clamp` of a value that is not a number gives that value back.
  pub num_of_clamp : (v lo hi : D) → clamp v lo hi ≼ clamp v lo hi → v ≼ v
  unfolding clamp
  num_of_clamp v lo hi n = elim (Bool-cases (lt v lo)) [
    | inl below ↦ (refl_of_le _ _ (le_of_lt v lo below)).0
    | inr above ↦ elim (Bool-cases (lt hi v)) [
      | inl over ↦ (refl_of_le _ _ (le_of_lt hi v over)).1
      | inr inside ↦ rw (above, inside) at n
    ]
  ]

  -- A clamped value that is a number lies between the limits.
  pub clamp_bounds :
      (v lo hi : D)
      → lo ≼ hi
      → clamp v lo hi ≼ clamp v lo hi
      → (lo ≼ clamp v lo hi) × (clamp v lo hi ≼ hi)
  clamp_bounds v lo hi h n =
      let num = num_of_clamp v lo hi n in
      unfold clamp in
      ground (
        arith,
        refl_of_le lo hi h,
        le_of_not_lt v lo num (refl_of_le lo hi h).0,
        le_of_not_lt hi v (refl_of_le lo hi h).1 num,
      )

  -- Clamping to limits round a point of an interval stays in that interval.
  pub clamp_keeps :
      (x lo hi a old b : D)
      → (a ≼ x) × (x ≼ b)
      → (a ≼ old) × (old ≼ b)
      → (lo ≼ old) × (old ≼ hi)
      → (a ≼ clamp x lo hi) × (clamp x lo hi ≼ b)
  unfolding clamp
  clamp_keeps x lo hi a old b (ax, xb) (ao, ob) (lo_old, old_hi) = ground (
    arith,
    le_of_lt x lo,
    le_of_lt hi x,
    le_trans a x lo ax,
    le_trans lo old b lo_old ob,
    le_trans a old hi ao old_hi,
    λ (h : hi ≼ x). le_trans hi x b h xb,
  )
