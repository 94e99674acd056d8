-- ===== src/ZeroForce/Limits.antt =====
-- ZeroForceLogic: the acceleration limit of one compliant cycle.
use zero_force_controller.Common.{◌≡◌, true, arith}
use zero_force_controller.Double.{Double, ◌≼◌, nought}
use zero_force_controller.Double.Laws.{IsIeee, clamp_bounds, clamp_keeps, num_of_clamp}
use zero_force_controller.Control.{compliant, Inputs, dt, count_period, fail}
use zero_force_controller.ZeroForce.{
  ZeroForceSettings, ZeroForceLogic, settings_valid, by_phase, comply, update, next_velocity,
  residual,
}
use zero_force_controller.ZeroForce.Safety.{IsSafe, IsSendable, observed}

module _ {D : Type 0} ⦃d : Double D⦄ where
  -- the change of velocity that `max_acceleration_mps2` allows in one cycle
  abbrev pub step : ZeroForceSettings D → D
  step p = d.mul p.max_acceleration dt

module _ {D : Type 0} ⦃d : Double D⦄ (ieee : IsIeee D) where
  open d use {add, sub, mul, negate, is_finite}
  open ieee use {
    finite_add, finite_mul, finite_refl, le_of_lt, le_trans, le-add_nonneg, sub_nonneg-le,
    mul_nonneg, lit_nonneg, lit_finite, finite_between, negate_finite,
  }

  limits_finite :
      (p : ZeroForceSettings D)
      → settings_valid p ≡ true
      → (is_finite p.max_velocity ≡ true)
        × (is_finite p.max_acceleration ≡ true)
        × (nought ≼ p.max_acceleration)
  unfolding settings_valid
  limits_finite p h = ground (arith, le_of_lt nought p.max_acceleration)

  step_nonneg : (p : ZeroForceSettings D) → settings_valid p ≡ true → nought ≼ step p
  step_nonneg p h =
      let (_, f, n) = limits_finite p h in
      mul_nonneg p.max_acceleration dt f (lit_finite 1 3 (omega arith)) n (lit_nonneg 1 3)

  next_velocity_step :
      (l : ZeroForceLogic D) (r : D)
      → settings_valid l.p ≡ true
      → IsSendable l
      → next_velocity l r ≼ next_velocity l r
      → let old = l.state.reference_velocity in
        (sub old (step l.p) ≼ next_velocity l r) × (next_velocity l r ≼ add old (step l.p))
  unfolding next_velocity
  next_velocity_step l r h s n =
      let old = l.state.reference_velocity in
      let (fv, _, _) = limits_finite l.p h in
      let f : is_finite old ≡ true =
        finite_between (negate l.p.max_velocity) old l.p.max_velocity (negate_finite _ fv) fv
          s.slow_down s.slow_up in
      let down = sub_nonneg-le old (step l.p) f (step_nonneg l.p h) in
      let up = le-add_nonneg old (step l.p) f (step_nonneg l.p h) in
      clamp_keeps ieee _ _ _ _ old _
        (clamp_bounds ieee _ _ _ (le_trans _ old _ down up) (num_of_clamp ieee _ _ _ n)) (down, up)
        (s.slow_down, s.slow_up)

  comply_acceleration :
      (l : ZeroForceLogic D) (i : Inputs D)
      → settings_valid l.p ≡ true
      → IsSendable l
      → (comply l i).state.valid ≡ true
      → let old = l.state.reference_velocity in
        let new = (comply l i).state.reference_velocity in
        (sub old (step l.p) ≼ new) × (new ≼ add old (step l.p))
  unfolding comply fail
  comply_acceleration l i h s v =
      let r = residual l i in
      ground (
        arith,
        finite_add l.state.reference_position (mul (next_velocity l r) dt),
        finite_mul (next_velocity l r) dt,
        finite_refl (next_velocity l r),
        next_velocity_step l r h s,
      )

  -- A compliant cycle that stays valid changes the reference velocity by at most
  -- `max_acceleration_mps2 * dt`, if the cycle before left a safe state.
  pub update_acceleration :
      (l : ZeroForceLogic D) (i : Inputs D)
      → IsSafe l
      → l.state.phase ≡ compliant
      → (update l i).state.valid ≡ true
      → let old = l.state.reference_velocity in
        let new = (update l i).state.reference_velocity in
        (sub old (step l.p) ≼ new) × (new ≼ add old (step l.p))
  unfolding update by_phase fail count_period
  update_acceleration l i s q v =
      ground (arith, s.settled, s.sendable, comply_acceleration (observed l i) i)
