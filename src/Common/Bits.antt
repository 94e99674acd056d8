-- ===== src/Common/Bits.antt =====
-- Bit masks at variables: `bit_and` with a mask of seven digits sees the low seven digits only, and
-- a statement about those is checked on every value.
use Prim.Native.Nat.{digits, bit_and-bitwise}
use zero_force_controller.Common.{
  ℕ, zero, suc, ◌+◌, ◌*◌, ◌/◌, ◌%◌, ◌≤◌, ◌<◌, ◌≡◌, ◌∙◌, sym, refl, min, bit_and, Bool, true, false,
  arith, if◌then◌else◌,
}

-- `test` holds of 0 to `bound - 1`.
unfoldable pub holds_below : ℕ → (ℕ → Bool) → Bool
holds_below zero test = true
holds_below (suc top) test = if test top then holds_below top test else false

pub holds_below_lem :
    (bound : ℕ) (test : ℕ → Bool)
    → holds_below bound test ≡ true
    → (k : ℕ) → k < bound
    → test k ≡ true
unfolding holds_below
holds_below_lem zero test all k inside = absurd (omega arith)
holds_below_lem (suc top) test all k inside =
    ground (arith, λ (h : holds_below top test ≡ true). holds_below_lem top test h k)

-- `&` of the `w` lowest digits
abbrev low : ℕ → ℕ → ℕ → ℕ
low zero x y = 0
low (suc w) x y = 2 * low w (x / 2) (y / 2) + min (x % 2) (y % 2)

-- `y` has at most `w` digits.
abbrev Short : ℕ → ℕ → Type 0
Short zero y = y ≡ 0
Short (suc w) y = Short w (y / 2)

-- `x` and `x'` have the same `w` lowest digits.
abbrev Agree : ℕ → ℕ → ℕ → Type 0
Agree zero x x' = Unit {0}
Agree (suc w) x x' = (x % 2 ≡ x' % 2) × Agree w (x / 2) (x' / 2)

low-zero : (w y : ℕ) → low w 0 y ≡ 0
low-zero zero y = refl
low-zero (suc w) y = omega (arith, low-zero w (y / 2))

low-Agree : (w y x x' : ℕ) → Agree w x x' → low w x y ≡ low w x' y
low-Agree zero y x x' same = refl
low-Agree (suc w) y x x' (digit, rest) =
    omega (arith, digit, low-Agree w (y / 2) (x / 2) (x' / 2) rest)

digits-zero : (steps x : ℕ) → digits (λ y. 0) min steps x 0 ≡ 0
digits-zero zero x = refl
digits-zero (suc steps) zero = refl
digits-zero (suc steps) (suc x) = omega (arith, digits-zero steps (suc x / 2))

digits-low : (w steps x y : ℕ) → x ≤ steps → Short w y → digits (λ z. 0) min steps x y ≡ low w x y
digits-low zero steps x y room short = rw short (digits-zero steps x)
digits-low (suc w) zero x y room short =
    let none_left : x ≡ 0 = omega arith in rw none_left (sym (low-zero (suc w) y))
digits-low (suc w) (suc steps) zero y room short = sym (low-zero (suc w) y)
digits-low (suc w) (suc steps) (suc x) y room short =
    omega (arith, digits-low w steps (suc x / 2) (y / 2) (omega arith) short)

bit_and-low : (w x y : ℕ) → Short w y → bit_and x y ≡ low w x y
bit_and-low w x y short = bit_and-bitwise x y ∙ digits-low w x x y (omega arith) short

low_seven : (x : ℕ) → Agree 7 x (x % 128)
low_seven x = (
  omega arith,
  (omega arith, (omega arith, (omega arith, (omega arith, (omega arith, (omega arith, tt)))))),
)

-- A mask of seven digits reads the seven lowest digits.
pub bit_and-mod_128 : (x y : ℕ) → Short 7 y → bit_and x y ≡ bit_and (x % 128) y
bit_and-mod_128 x y short =
    bit_and-low 7 x y short
    ∙ low-Agree 7 y x (x % 128) (low_seven x)
    ∙ sym (bit_and-low 7 (x % 128) y short)
