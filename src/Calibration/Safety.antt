-- ===== src/Calibration/Safety.antt =====
-- From SI units to counts: what is sent lies in the soft bounds, and the zero never moves.
use zero_force_controller.Common.{◌≡◌, true, some, arith}
use zero_force_controller.Common.Int.{ℤ, IsI32, i32_min, i32_max}
use zero_force_controller.Double.{Double}
use zero_force_controller.Double.Laws.{IsIeee, le_of_not_lt}
use zero_force_controller.Calibration.{SiCalibration, to_counts, in_bounds, position}

module _ {D : Type 0} ⦃d : Double D⦄ where
  open d use {le, add, div, round, is_finite, of_int}

  module _ (ieee : IsIeee D) where
    open ieee use {finite_refl, of_int_finite, to_int_bounds}

    -- A position that is converted has a valid reference and lies in the soft bounds, and so does
    -- the position of the counts that come out, which are an `int32_t`.
    pub to_counts_lem :
        (c : SiCalibration D) (q : D) (n : ℤ)
        → to_counts c q ≡ some n
        → (c.reference_valid ≡ true)
          × (in_bounds c q ≡ true)
          × (in_bounds c (position c n) ≡ true)
          × IsI32 n
    unfolding to_counts
    to_counts_lem c q n h =
        let x = round (add (of_int c.reference_counts) (div q c.m_per_count)) in
        ground (
          arith,
          le_of_not_lt ieee x (of_int i32_min),
          le_of_not_lt ieee (of_int i32_max) x,
          finite_refl _ (of_int_finite i32_min (omega arith)),
          finite_refl _ (of_int_finite i32_max (omega arith)),
          to_int_bounds i32_min i32_max x,
          ieee.round_num (add (of_int c.reference_counts) (div q c.m_per_count)),
        )
