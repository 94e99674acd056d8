-- ===== src/Double.antt =====
-- The C++ `double`: its comparisons, its arithmetic and the functions of <cmath> that the
-- sources call, as an interface. antt has no floats, so every definition that computes with a
-- `double` takes the type and its operations as a parameter.
pub mod Laws
pub mod Fixed
use zero_force_controller.Common.{ℕ, ◌≡◌, Bool, true, if◌then◌else◌}
use zero_force_controller.Common.Int.{ℤ, pos}

pub record Double (D : Type 0) : Type 0 where
  pub le : D → D → Bool
  pub lt : D → D → Bool
  pub eq : D → D → Bool
  pub add : D → D → D
  pub sub : D → D → D
  pub mul : D → D → D
  pub div : D → D → D
  pub negate : D → D
  pub fabs : D → D
  pub is_finite : D → Bool
  pub copysign : D → D → D
  pub trunc : D → D
  pub round : D → D
  pub ceil : D → D
  pub sqrt : D → D
  pub exp : D → D
  -- the conversion from an integer type, and `static_cast` to one
  pub of_int : ℤ → D
  pub to_int : D → ℤ
  -- the literal m · 10⁻ᵏ
  pub lit : ℕ → ℕ → D
  pub nan : D

module _ {D : Type 0} ⦃d : Double D⦄ where
  open d use {le, lt, eq, of_int}

  infix 4 ◌≼◌
  abbrev pub ◌≼◌ : D → D → Type 0
  x ≼ y = le x y ≡ true

  abbrev pub nought : D
  nought = of_int (pos 0)

  abbrev pub one : D
  one = of_int (pos 1)

  -- `std::max(a, b)` and `std::clamp(v, lo, hi)`, by the comparisons of the standard
  abbrev pub max_double : D → D → D
  max_double a b = if lt a b then b else a

  unfoldable pub clamp : D → D → D → D
  clamp v lo hi = if lt v lo then lo else if lt hi v then hi else v
