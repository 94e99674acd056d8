-- ===== src/Ethercat/Counts.antt =====
-- packages/zfc_ethercat_core/include/count_command.hpp: the last check of a position command
-- before it is sent, in encoder counts. `int32_t` and `int64_t` are ℤ.
pub mod Bounds
use zero_force_controller.Common.{Bool, not, ◌&&◌, ◌||◌, Option, none, some, if◌then◌else◌}
use zero_force_controller.Common.Int.{ℤ, pos, neg, ◌-ℤ◌, ltb_ℤ, leb_ℤ, i32_min, i32_max}
use zero_force_controller.Double.{Double}
use zero_force_controller.Ethercat.Clearpath.{
  TxPdos, negative_limit_reached, positive_limit_reached,
}

-- `kMaximumVelocity`, counts in a cycle
abbrev pub maximum_velocity : ℤ
maximum_velocity = pos 1000

pub data CommandResult : Type 0 where
  valid invalid excessive_increment limit : CommandResult

module _ {D : Type 0} ⦃d : Double D⦄ where
  open d use {lt, eq, is_finite, trunc, of_int, to_int}

  -- `none` is `false`, with `out` left alone
  unfoldable pub to_counts : D → Option ℤ
  to_counts value =
      if not (is_finite value)
        || not (eq (trunc value) value)
        || lt value (of_int i32_min)
        || lt (of_int i32_max) value
      then none
      else some (to_int value)

-- the test of the increment against the bound for one cycle
unfoldable pub too_far : ℤ → ℤ → Bool
too_far delta maximum =
    leb_ℤ maximum (pos 0)
    || ltb_ℤ maximum_velocity maximum
    || ltb_ℤ maximum delta
    || ltb_ℤ delta (neg maximum)

-- the test against the limit switches, of the intent and of the residual following error
unfoldable pub into_limit : ℤ → ℤ → TxPdos → Bool
into_limit delta out motor =
    (negative_limit_reached motor && (ltb_ℤ delta (pos 0) || ltb_ℤ out motor.actual_position))
    || (positive_limit_reached motor && (ltb_ℤ (pos 0) delta || ltb_ℤ motor.actual_position out))

-- `ValidateCommand` on a whole number of counts
unfoldable pub check_counts : ℤ → ℤ → TxPdos → ℤ → CommandResult
check_counts out previous motor maximum =
    let delta = out -ℤ previous in
    if too_far delta maximum
    then excessive_increment
    else if into_limit delta out motor
    then limit
    else valid

module _ {D : Type 0} ⦃d : Double D⦄ where
  -- the result, and the new `out`
  unfoldable pub validate_command : D → ℤ → TxPdos → ℤ → ℤ → CommandResult × ℤ
  validate_command value previous motor maximum out = elim (to_counts value) [
    | none ↦ (invalid, out)
    | some counts ↦ (check_counts counts previous motor maximum, counts)
  ]
