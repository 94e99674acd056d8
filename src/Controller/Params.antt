-- ===== src/Controller/Params.antt =====
-- The parameters of the two controllers, src/parameters.yaml of packages/zfc_zero_force_controller and
-- of packages/zfc_calibration_controller, and the settings that `settings` makes of them. Names are
-- lists of characters.
use zero_force_controller.Common.{ℕ, Bool, List}
use zero_force_controller.Common.Int.{ℤ}
use zero_force_controller.Control.{MotionBounds}
use zero_force_controller.ZeroForce.{ZeroForceSettings}
use zero_force_controller.Sequencer.Logic.{CalibrationSettings}

abbrev pub Name : Type 0
Name = List ℕ

-- the parameters that both have
pub record Common (D : Type 0) : Type 0 where
  pub joint_name : Name
  pub force_interface : Name
  pub finite_fault_hold : Bool
  pub trial_id : ℕ
  pub excursion_limit_m : D
  pub use_position_bounds : Bool
  pub lower_position_m : D
  pub upper_position_m : D
  pub stationary_velocity_mps : D

pub record ZeroForceParams (D : Type 0) : Type 0 where
  pub common : Common D
  pub hold_only : Bool
  pub baseline_duration_s : D
  pub noise_duration_s : D
  pub acceleration_per_force : D
  pub force_response_sign : ℤ
  pub damping_per_s : D
  pub inertial_force_coefficient_kg : D
  pub noise_multiplier : D
  pub minimum_deadband_n : D
  pub max_acceleration_mps2 : D
  pub max_velocity_mps : D
  pub max_force_n : D

pub record CalibrationParams (D : Type 0) : Type 0 where
  pub common : Common D
  pub center_zone_half_width_m : D
  pub base_velocity_mps : D
  pub jerk_mps3 : D
  pub initial_acceleration_mps2 : D
  pub acceleration_increment_mps2 : D
  pub max_acceleration_mps2 : D
  pub cycles_per_acceleration_increase : ℤ
  pub settling_acceleration_mps2 : D
  pub settling_timeout_s : D
  pub tracking_tolerance_m : D
  pub stationary_duration_s : D

abbrev bounds_of : {D : Type 0} → Common D → MotionBounds D
bounds_of q = record {
  excursion_limit = q.excursion_limit_m;
  use_position_bounds = q.use_position_bounds;
  lower = q.lower_position_m;
  upper = q.upper_position_m;
}

abbrev pub zero_force_settings : {D : Type 0} → ZeroForceParams D → ZeroForceSettings D
zero_force_settings q = record {
  limits = bounds_of q.common;
  stationary_velocity = q.common.stationary_velocity_mps;
  hold_only = q.hold_only;
  baseline_duration = q.baseline_duration_s;
  noise_duration = q.noise_duration_s;
  acceleration_per_force = q.acceleration_per_force;
  force_response_sign = q.force_response_sign;
  damping = q.damping_per_s;
  inertial_force_coefficient = q.inertial_force_coefficient_kg;
  noise_multiplier = q.noise_multiplier;
  minimum_deadband = q.minimum_deadband_n;
  max_acceleration = q.max_acceleration_mps2;
  max_velocity = q.max_velocity_mps;
  max_force = q.max_force_n;
}

abbrev pub calibration_settings : {D : Type 0} → CalibrationParams D → CalibrationSettings D
calibration_settings q = record {
  limits = bounds_of q.common;
  stationary_velocity = q.common.stationary_velocity_mps;
  trajectory = record {
    center_zone_half_width = q.center_zone_half_width_m;
    base_velocity = q.base_velocity_mps;
    jerk = q.jerk_mps3;
    initial_acceleration = q.initial_acceleration_mps2;
    acceleration_increment = q.acceleration_increment_mps2;
    max_acceleration = q.max_acceleration_mps2;
    cycles_per_increase = q.cycles_per_acceleration_increase;
  };
  settling_acceleration = q.settling_acceleration_mps2;
  settling_timeout = q.settling_timeout_s;
  tracking_tolerance = q.tracking_tolerance_m;
  stationary_duration = q.stationary_duration_s;
}
