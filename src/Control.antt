-- ===== src/Control.antt =====
-- packages/zfc_interfaces/include/zfc_interfaces/control_types.hpp: the values that the two
-- controllers share, and their common checks. `int64_t` and `uint64_t` are ℤ and ℕ; a counter
-- keeps its wrap at 2 ^ 64.
use zero_force_controller.Common.{
  ℕ, ◌+◌, ◌%◌, ◌^◌, Bool, true, false, not, ◌&&◌, ◌||◌, if◌then◌else◌,
}
use zero_force_controller.Common.Int.{ℤ, pos, ltb_ℤ, leb_ℤ}
use zero_force_controller.Double.{Double, nought, one}

-- `++` on a `uint64_t`
abbrev pub increment : ℕ → ℕ
increment n = (n + 1) % 2 ^ 64

pub data Phase : Type 0 where
  idle baseline noise compliant hold faulted trajectory settling complete : Phase

pub data Fault : Type 0 where
  no_fault feedback period bounds settings settling_timeout : Fault

pub record Inputs (D : Type 0) : Type 0 where
  pub position : D
  pub velocity : D
  pub force : D
  pub time_ns : ℤ
  pub period_ns : ℤ

pub record Snapshot (D : Type 0) : Type 0 where
  pub measured : Inputs D
  pub phase : Phase
  pub fault : Fault
  pub valid : Bool
  pub reference_position : D
  pub reference_velocity : D
  pub reference_acceleration : D
  pub baseline_force : D
  pub noise_rms : D
  pub residual_force : D
  pub progress : D
  pub excessive_periods : ℕ

pub record MotionBounds (D : Type 0) : Type 0 where
  pub excursion_limit : D
  pub use_position_bounds : Bool
  pub lower : D
  pub upper : D

module _ {D : Type 0} ⦃d : Double D⦄ where
  open d use {le, lt, sub, fabs, is_finite, lit, nan}

  -- `dt`, one millisecond
  abbrev pub dt : D
  dt = lit 1 3

  abbrev pub no_inputs : Inputs D
  no_inputs = record {
    position = nought;
    velocity = nought;
    force = nought;
    time_ns = pos 0;
    period_ns = pos 1_000_000;
  }

  -- `Snapshot{}`
  abbrev pub fresh_snapshot : Snapshot D
  fresh_snapshot = record {
    measured = no_inputs;
    phase = idle;
    fault = no_fault;
    valid = true;
    reference_position = nought;
    reference_velocity = nought;
    reference_acceleration = nought;
    baseline_force = nought;
    noise_rms = nought;
    residual_force = nought;
    progress = nought;
    excessive_periods = 0;
  }

  -- `MotionBounds::valid`
  unfoldable pub bounds_valid : MotionBounds D → Bool
  bounds_valid b =
      is_finite b.excursion_limit
      && lt nought b.excursion_limit
      && le b.excursion_limit one
      && (not b.use_position_bounds
          || (is_finite b.lower && is_finite b.upper && lt b.lower b.upper))

  -- `MotionBounds::contains`
  unfoldable pub contains : MotionBounds D → D → D → Bool
  contains b q origin =
      is_finite q
      && le (fabs (sub q origin)) b.excursion_limit
      && (not b.use_position_bounds || (le b.lower q && le q b.upper))

  unfoldable pub inputs_finite : Inputs D → Bool
  inputs_finite i =
      is_finite i.position && is_finite i.velocity && is_finite i.force && leb_ℤ (pos 0) i.time_ns

  -- The count of long periods is made before the test, whatever the test says.
  unfoldable pub count_period : Inputs D → Snapshot D → Snapshot D
  count_period i s =
      if ltb_ℤ (pos 1_500_000) i.period_ns
      then record s { excessive_periods = increment s.excessive_periods }
      else s

  unfoldable pub period_valid : Inputs D → Snapshot D → Bool
  period_valid i s =
      ltb_ℤ (pos 0) i.period_ns
      && leb_ℤ i.period_ns (pos 10_000_000)
      && leb_ℤ s.measured.time_ns i.time_ns

  unfoldable pub fail : Snapshot D → Inputs D → Fault → Snapshot D
  fail s i reason = record s {
    measured = i;
    phase = faulted;
    fault = reason;
    valid = false;
    reference_position = nan;
  }
