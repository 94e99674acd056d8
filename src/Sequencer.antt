-- ===== src/Sequencer.antt =====
-- packages/zfc_calibration_controller/include/zfc_calibration_controller/calibration_sequencer.hpp:
-- the discrete recurrence that shuttles the carriage about its start with growing accelerations. A
-- branch of `update` is a function here. `int64_t` is ℤ.
pub mod Logic
use zero_force_controller.Common.{ℕ, Bool, true, false, not, ◌&&◌, ◌||◌, if◌then◌else◌}
use zero_force_controller.Common.Int.{ℤ, pos, ◌+ℤ◌, ltb_ℤ, leb_ℤ}
use zero_force_controller.Double.{Double, nought, one, clamp}
use zero_force_controller.Control.{dt, increment}

pub record CalibrationParameters (D : Type 0) : Type 0 where
  pub center_zone_half_width : D
  pub base_velocity : D
  pub jerk : D
  pub initial_acceleration : D
  pub acceleration_increment : D
  pub max_acceleration : D
  pub cycles_per_increase : ℤ

pub record CalibrationSequencer (D : Type 0) : Type 0 where
  pub p : CalibrationParameters D
  pub configured : Bool
  pub active : Bool
  pub finished : Bool
  pub start_position : D
  pub commanded_position : D
  pub displacement : D
  pub displacement_error : D
  pub velocity_error : D
  pub velocity : D
  pub acceleration : D
  pub acceleration_limit : D
  pub completed_cycles : ℤ
  pub pass_counted : Bool
  pub excessive_periods : ℕ

module _ {D : Type 0} ⦃d : Double D⦄ where
  open d use {le, lt, eq, add, sub, mul, div, negate, fabs, is_finite, lit}

  abbrev finite_positive : D → Bool
  finite_positive x = is_finite x && lt nought x

  -- `CalibrationSequencer::valid`
  unfoldable pub parameters_valid : CalibrationParameters D → Bool
  parameters_valid p =
      finite_positive p.center_zone_half_width
      && is_finite p.base_velocity
      && not (eq p.base_velocity nought)
      && finite_positive p.jerk
      && finite_positive p.initial_acceleration
      && finite_positive p.acceleration_increment
      && is_finite p.max_acceleration
      && le p.initial_acceleration p.max_acceleration
      && leb_ℤ (pos 1) p.cycles_per_increase

  unfoldable pub reset : CalibrationSequencer D → CalibrationSequencer D
  reset s = record s {
    active = false;
    finished = false;
    start_position = nought;
    commanded_position = nought;
    displacement = nought;
    displacement_error = nought;
    velocity_error = nought;
    velocity = nought;
    acceleration = nought;
    acceleration_limit = nought;
    completed_cycles = pos 0;
    pass_counted = true;
    excessive_periods = 0;
  }

  unfoldable pub configure :
      CalibrationParameters D → CalibrationSequencer D → Bool × CalibrationSequencer D
  configure p s =
      if parameters_valid p
      then (true, record (reset s) { configured = true; p = p })
      else (false, record (reset s) { configured = false })

  unfoldable pub activate : D → CalibrationSequencer D → Bool × CalibrationSequencer D
  activate actual s =
      let s1 = reset s in
      if not s1.configured || not (is_finite actual) then (false, s1) else (
        true,
        record s1 {
          start_position = actual;
          commanded_position = actual;
          acceleration_limit = s1.p.initial_acceleration;
          active = true;
        },
      )

  -- `accumulate`: the sum and its compensation
  unfoldable pub accumulate : D → D → D → D × D
  accumulate sum error step =
      let corrected = sub step error in
      let next = add sum corrected in (next, sub (sub next sum) corrected)

  -- 64 times the epsilon of binary64
  abbrev tolerance : CalibrationSequencer D → D
  tolerance s = mul (mul (lit 64 0) (div one (lit 4_503_599_627_370_496 0))) s.p.max_acceleration

  -- a pass of the center in the first direction
  unfoldable pub count_pass : CalibrationSequencer D → CalibrationSequencer D
  count_pass s =
      let cycles = s.completed_cycles +ℤ pos 1 in
      if leb_ℤ s.p.cycles_per_increase cycles
      then (let limit = add s.acceleration_limit s.p.acceleration_increment in
          record s {
            completed_cycles = pos 0;
            acceleration_limit = limit;
            finished = s.finished || le (sub s.p.max_acceleration (tolerance s)) limit;
            pass_counted = true;
          })
      else record s { completed_cycles = cycles; pass_counted = true }

  -- the velocity in the center zone, within the base speed
  unfoldable pub coast : CalibrationSequencer D → CalibrationSequencer D
  coast s =
      let speed = fabs s.p.base_velocity in
      let v = if eq s.velocity nought then s.p.base_velocity else s.velocity in
      let clamped = clamp v (negate speed) speed in
      record s {
        velocity = clamped;
        velocity_error = if not (eq clamped v) then nought else s.velocity_error;
      }

  unfoldable pub cross_center : CalibrationSequencer D → CalibrationSequencer D
  cross_center s =
      let s1 = coast s in
      if not s1.pass_counted && lt nought (mul s1.velocity s1.p.base_velocity)
      then count_pass s1
      else s1

  unfoldable pub turn : CalibrationSequencer D → CalibrationSequencer D
  turn s =
      let change = mul (mul (if le nought s.displacement then one else negate one) s.p.jerk) dt in
      let a =
        clamp (sub s.acceleration change) (negate s.acceleration_limit) s.acceleration_limit in
      let (v, e) = accumulate s.velocity s.velocity_error (mul a dt) in
      record s { pass_counted = false; acceleration = a; velocity = v; velocity_error = e }

  unfoldable pub in_center : CalibrationSequencer D → Bool
  in_center s =
      let width = s.p.center_zone_half_width in
      lt (fabs s.displacement) (sub width (mul (lit 1 9) width))

  -- the last accepted step
  unfoldable pub advance : CalibrationSequencer D → CalibrationSequencer D
  advance s =
      let (x, e) = accumulate s.displacement s.displacement_error (mul s.velocity dt) in
      record s {
        displacement = x;
        displacement_error = e;
        commanded_position = add s.start_position x;
      }

  unfoldable pub update : ℤ → CalibrationSequencer D → Bool × CalibrationSequencer D
  update period s =
      if not s.active || leb_ℤ period (pos 0)
      then (false, s)
      else (let s1 =
            if ltb_ℤ (pos 1_500_000) period
            then record s { excessive_periods = increment s.excessive_periods }
            else s in
          if ltb_ℤ (pos 10_000_000) period
          then (false, s1)
          else if s1.finished
          then (true, s1)
          else (let s2 = advance (if in_center s1 then cross_center s1 else turn s1) in
              (
                is_finite s2.commanded_position
                    && is_finite s2.velocity
                    && is_finite s2.acceleration,
                s2,
              )))

  unfoldable pub progress : CalibrationSequencer D → D
  progress s =
      if s.finished
      then one
      else (let range = sub s.p.max_acceleration s.p.initial_acceleration in
          if lt nought range
          then clamp (div (sub s.acceleration_limit s.p.initial_acceleration) range) nought one
          else nought)
