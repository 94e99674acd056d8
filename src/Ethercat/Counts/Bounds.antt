-- ===== src/Ethercat/Counts/Bounds.antt =====
-- What a validated command satisfies.
use zero_force_controller.Common.{◌≡◌, ◌↔◌, true, false, some, arith, Option-cases, inl, inr, ap}
use zero_force_controller.Common.Int.{ℤ, pos, ◌-ℤ◌, ◌+ℤ◌, ◌≤ℤ◌, i32_min, i32_max, IsI32}
use zero_force_controller.Double.{Double}
use zero_force_controller.Double.Laws.{IsIeee, le_of_not_lt}
use zero_force_controller.Ethercat.Clearpath.{
  TxPdos, negative_limit_reached, positive_limit_reached,
}
use zero_force_controller.Ethercat.Counts.{
  valid, invalid, maximum_velocity, to_counts, too_far, into_limit, check_counts, validate_command,
}

-- A step of at most `maximum` counts that keeps away from the limits that are reached.
pub record IsAllowed (out previous : ℤ) (motor : TxPdos) (maximum : ℤ) : Type 0 where
  pub positive : pos 1 ≤ℤ maximum
  pub bounded : maximum ≤ℤ maximum_velocity
  pub not_below : previous ≤ℤ out +ℤ maximum
  pub not_above : out ≤ℤ previous +ℤ maximum
  pub off_negative :
      negative_limit_reached motor ≡ true → (previous ≤ℤ out) × (motor.actual_position ≤ℤ out)
  pub off_positive :
      positive_limit_reached motor ≡ true → (out ≤ℤ previous) × (out ≤ℤ motor.actual_position)

too_far_lem :
    (out previous maximum : ℤ)
    → (too_far (out -ℤ previous) maximum ≡ false) ↔ (
        (pos 1 ≤ℤ maximum)
        × (maximum ≤ℤ maximum_velocity)
        × (previous ≤ℤ out +ℤ maximum)
        × (out ≤ℤ previous +ℤ maximum))
unfolding too_far ◌-ℤ◌ ◌+ℤ◌
too_far_lem out previous maximum = (λ h. ground arith, λ h. ground arith)

into_limit_lem :
    (out previous : ℤ) (motor : TxPdos)
    → (into_limit (out -ℤ previous) out motor ≡ false) ↔ (
        (negative_limit_reached motor ≡ true → (previous ≤ℤ out) × (motor.actual_position ≤ℤ out))
        × (positive_limit_reached motor ≡ true
            → (out ≤ℤ previous) × (out ≤ℤ motor.actual_position)))
unfolding into_limit ◌-ℤ◌
into_limit_lem out previous motor = (λ h. ground arith, λ h. ground (arith, h.0, h.1))

check_counts-IsAllowed :
    (out previous : ℤ) (motor : TxPdos) (maximum : ℤ)
    → check_counts out previous motor maximum ≡ valid
    → IsAllowed out previous motor maximum
unfolding check_counts
check_counts-IsAllowed out previous motor maximum h =
    ground (arith, (too_far_lem out previous maximum).0, (into_limit_lem out previous motor).0)

IsAllowed-check_counts :
    (out previous : ℤ) (motor : TxPdos) (maximum : ℤ)
    → IsAllowed out previous motor maximum
    → check_counts out previous motor maximum ≡ valid
unfolding check_counts
IsAllowed-check_counts out previous motor maximum h = rw (
  (too_far_lem out previous maximum).1 (h.positive, h.bounded, h.not_below, h.not_above),
  (into_limit_lem out previous motor).1 (h.off_negative, h.off_positive),
)

module _ {D : Type 0} ⦃d : Double D⦄ (ieee : IsIeee D) where
  open d use {of_int, is_finite}
  open ieee use {finite_refl, of_int_finite, to_int_bounds, trunc-of_int, to_int-of_int, of_int_le}

  to_counts-IsI32 : (value : D) {n : ℤ} → to_counts value ≡ some n → IsI32 n
  unfolding to_counts
  to_counts-IsI32 value h =
      let lo = finite_refl _ (of_int_finite i32_min (omega arith)) in
      let hi = finite_refl _ (of_int_finite i32_max (omega arith)) in
      ground (
        arith,
        finite_refl value,
        le_of_not_lt ieee value (of_int i32_min),
        le_of_not_lt ieee (of_int i32_max) value,
        to_int_bounds i32_min i32_max value,
      )

  -- A command that `ValidateCommand` accepts is an `int32_t`, moves by at most `maximum` and so by at
  -- most 1000 counts, and moves neither into a limit that is reached nor past the actual position on
  -- its side.
  pub validate_command-IsAllowed :
      (value : D) (previous : ℤ) (motor : TxPdos) (maximum out : ℤ)
      → (validate_command value previous motor maximum out).0 ≡ valid
      → let counts = (validate_command value previous motor maximum out).1 in
        IsI32 counts × IsAllowed counts previous motor maximum
  unfolding validate_command
  validate_command-IsAllowed value previous motor maximum out h =
      elim (Option-cases (to_counts value)) [
        | inl e ↦ let bad : invalid ≡ valid = rw (e, validate_command) at h in cc
        | inr (n, e) ↦
            let good : check_counts n previous motor maximum ≡ valid =
              rw (e, validate_command) at h in
            rw (e, validate_command)
              (to_counts-IsI32 value e, check_counts-IsAllowed n previous motor maximum good)
      ]

  to_counts-of_int : (n : ℤ) → IsI32 n → to_counts (of_int n) ≡ some n
  unfolding to_counts
  to_counts-of_int n h = ground (
    arith,
    of_int_finite n h,
    trunc-of_int n h,
    to_int-of_int n h,
    of_int_le i32_min n (omega arith) h h.0,
    of_int_le n i32_max h (omega arith) h.1,
    ieee.lt-eq-not-le (of_int n) (of_int i32_min),
    ieee.lt-eq-not-le (of_int i32_max) (of_int n),
    ieee.refl_of_le (of_int i32_min) (of_int n),
    ieee.refl_of_le (of_int n) (of_int i32_max),
  )

  -- A whole number of counts in the range of `int32_t` is accepted, unchanged, exactly if it is an
  -- allowed step.
  pub validate_command_iff :
      (n previous : ℤ) (motor : TxPdos) (maximum out : ℤ)
      → IsI32 n
      → (validate_command (of_int n) previous motor maximum out ≡ (valid, n))
        ↔ IsAllowed n previous motor maximum
  unfolding validate_command
  validate_command_iff n previous motor maximum out h =
      rw (to_counts-of_int n h, validate_command)
        (
          λ e. check_counts-IsAllowed n previous motor maximum (ap (λ r. r.0) e),
          λ a. rw (IsAllowed-check_counts n previous motor maximum a),
        )

  pub validate_command-of_int :
      (n previous : ℤ) (motor : TxPdos) (maximum out : ℤ)
      → IsI32 n
      → (validate_command (of_int n) previous motor maximum out).1 ≡ n
  unfolding validate_command
  validate_command-of_int n previous motor maximum out h =
      rw (to_counts-of_int n h, validate_command) (λ i. n)
