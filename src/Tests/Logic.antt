-- ===== src/Tests/Logic.antt =====
-- The compliance law: two cycles of baseline, two of noise, then compliance.
use zero_force_controller.Common.{ℕ, ◌*◌, ◌^◌, ◌<◌, ◌≡◌, refl, true, false, none, [], ◌∷◌, arith}
use zero_force_controller.Common.Int.{pos, ◌+ℤ◌, ◌-ℤ◌, ◌*ℤ◌}
use zero_force_controller.Double.{nought, ◌≼◌, clamp}
use zero_force_controller.Double.Fixed.{
  Fixed, fixed_double, Fixed-IsIeee, multiply, divide, square_root, exponential,
}
use zero_force_controller.Control.{
  Inputs, baseline, noise, compliant, no_inputs, fresh_snapshot, contains, bounds_valid,
  inputs_finite, period_valid, count_period, fail,
}
use zero_force_controller.ZeroForce.{
  cycles, ZeroForceSettings, ZeroForceLogic, settings_valid, settings_finite, activate, accepts,
  reset, update, run, by_phase, measure_baseline, measure_noise, accumulate_noise, comply,
  next_velocity,
}
use zero_force_controller.ZeroForce.Safety.{IsSafe, run-IsSafe}
use zero_force_controller.ZeroForce.Limits.{step, update_acceleration}
use zero_force_controller.ZeroForce.Phases.{Follows, update-Follows, run_latched, captures_on_time}

abbrev pub milli : ℕ → Fixed
milli n = fixed_double.lit n 3

abbrev pub settings : ZeroForceSettings Fixed
settings = record {
  limits = record {
    excursion_limit = milli 500;
    use_position_bounds = false;
    lower = none;
    upper = none;
  };
  hold_only = false;
  baseline_duration = milli 2;
  noise_duration = milli 2;
  acceleration_per_force = milli 1000;
  damping = milli 1000;
  inertial_force_coefficient = milli 0;
  noise_multiplier = milli 3000;
  minimum_deadband = milli 100;
  max_acceleration = milli 10000;
  max_velocity = milli 500;
  stationary_velocity = milli 10;
  max_force = milli 100000;
  force_response_sign = pos 1;
}

abbrev pub logic : ZeroForceLogic Fixed
logic = record {
  p = settings;
  state = fresh_snapshot;
  active = false;
  count = 0;
  origin = nought;
  mean = nought;
  noise_scale = nought;
  noise_sum = nought;
}

abbrev pub at : ℕ → Inputs Fixed
at n = record no_inputs { time_ns = pos (1_000_000 * n) }

abbrev pub pushed : ℕ → Inputs Fixed
pushed n = record (at n) { force = milli 2000 }

abbrev active_logic : ZeroForceLogic Fixed
active_logic = (activate logic settings (at 0)).1

abbrev pub compliant_logic : ZeroForceLogic Fixed
compliant_logic = run active_logic (at 1 ∷ at 2 ∷ at 3 ∷ at 4 ∷ [])

abbrev lost_logic : ZeroForceLogic Fixed
lost_logic = update active_logic (record (at 1) { position = none })

phases : compliant_logic.state.phase ≡ compliant
unfolding activate accepts reset settings_valid settings_finite bounds_valid contains inputs_finite
    run update by_phase period_valid count_period measure_baseline measure_noise accumulate_noise
    multiply divide square_root ◌+ℤ◌ ◌-ℤ◌ ◌*ℤ◌
phases = refl

run-IsSafe_example :
    IsSafe (run (activate logic settings (at 0)).1 (at 1 ∷ at 2 ∷ at 3 ∷ at 4 ∷ pushed 5 ∷ []))
run-IsSafe_example =
    run-IsSafe Fixed-IsIeee logic settings (at 0) (at 1 ∷ at 2 ∷ at 3 ∷ at 4 ∷ pushed 5 ∷ [])

update-Follows_example :
    Follows compliant_logic.state.phase (update compliant_logic (pushed 5)).state.phase
update-Follows_example = update-Follows compliant_logic (pushed 5)

pub compliant_logic-IsSafe : IsSafe compliant_logic
compliant_logic-IsSafe =
    run-IsSafe Fixed-IsIeee logic settings (at 0) (at 1 ∷ at 2 ∷ at 3 ∷ at 4 ∷ [])

compliant_is_valid : (update compliant_logic (pushed 5)).state.valid ≡ true
unfolding activate accepts reset settings_valid settings_finite bounds_valid contains inputs_finite
    run update by_phase period_valid count_period measure_baseline measure_noise accumulate_noise
    multiply divide square_root exponential comply next_velocity clamp ◌+ℤ◌ ◌-ℤ◌ ◌*ℤ◌
compliant_is_valid = refl

update_acceleration_example :
    let old = compliant_logic.state.reference_velocity in
    let new = (update compliant_logic (pushed 5)).state.reference_velocity in
    (fixed_double.sub old (step settings) ≼ new) × (new ≼ fixed_double.add old (step settings))
unfolding activate accepts reset settings_valid settings_finite bounds_valid contains inputs_finite
    run update by_phase period_valid count_period measure_baseline measure_noise accumulate_noise
    multiply divide square_root ◌+ℤ◌ ◌-ℤ◌ ◌*ℤ◌
update_acceleration_example =
    update_acceleration Fixed-IsIeee compliant_logic (pushed 5) compliant_logic-IsSafe phases
      compliant_is_valid

lost : lost_logic.state.valid ≡ false
unfolding activate accepts reset settings_valid settings_finite bounds_valid contains inputs_finite
    update fail ◌-ℤ◌
lost = refl

run_latched_example :
    ((run lost_logic (at 2 ∷ pushed 3 ∷ [])).state.valid ≡ false)
    × ((run lost_logic (at 2 ∷ pushed 3 ∷ [])).state.fault ≡ lost_logic.state.fault)
run_latched_example = run_latched lost_logic (at 2 ∷ pushed 3 ∷ []) lost

accepted : (activate logic settings (at 0)).0 ≡ true
unfolding activate accepts reset settings_valid settings_finite bounds_valid contains inputs_finite
    ◌-ℤ◌
accepted = refl

two_cycles : 2 ≡ cycles settings.baseline_duration
unfolding divide ◌+ℤ◌
two_cycles = refl

small : cycles settings.baseline_duration < 2 ^ 64
unfolding divide ◌+ℤ◌
small = omega arith

all_valid :
    (update (run (update (run active_logic (at 1 ∷ [])) (at 2)) (at 3 ∷ [])) (at 4)).state.valid
    ≡ true
unfolding activate accepts reset settings_valid settings_finite bounds_valid contains inputs_finite
    run update by_phase period_valid count_period measure_baseline measure_noise accumulate_noise
    multiply divide square_root ◌+ℤ◌ ◌-ℤ◌ ◌*ℤ◌
all_valid = refl

captures_on_time_example :
    ((run active_logic (at 1 ∷ [])).state.phase ≡ baseline)
    × ((update (run active_logic (at 1 ∷ [])) (at 2)).state.phase ≡ noise)
    × ((run (update (run active_logic (at 1 ∷ [])) (at 2)) (at 3 ∷ [])).state.phase ≡ noise)
    × ((update (run (update (run active_logic (at 1 ∷ [])) (at 2)) (at 3 ∷ [])) (at 4)).state.phase
        ≡ compliant)
captures_on_time_example =
    captures_on_time logic settings (at 0) (at 1 ∷ []) (at 2) (at 3 ∷ []) (at 4) refl accepted
      two_cycles two_cycles small small all_valid
