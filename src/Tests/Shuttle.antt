-- ===== src/Tests/Shuttle.antt =====
-- The calibration sequencer from its activation on.
use zero_force_controller.Common.{ℕ, ◌*◌, ◌≡◌, refl, true, false, none, [], ◌∷◌}
use zero_force_controller.Common.Int.{pos, ◌-ℤ◌, ◌+ℤ◌, ◌*ℤ◌}
use zero_force_controller.Double.{nought}
use zero_force_controller.Double.Fixed.{Fixed, fixed_double, Fixed-IsIeee, multiply, divide}
use zero_force_controller.Control.{
  Inputs, trajectory, no_inputs, fresh_snapshot, inputs_finite, contains, bounds_valid,
}
use zero_force_controller.Sequencer
use zero_force_controller.Sequencer.{
  CalibrationSequencer, CalibrationParameters, parameters_valid, configure,
}
use zero_force_controller.Sequencer.Logic.{
  CalibrationSettings, SequencerLogic, activate, accepts, started, settings_valid,
  required_excursion, reset, update, run,
}
use zero_force_controller.Sequencer.Logic.Safety.{IsGuarded, activated-IsGuarded}
use zero_force_controller.Sequencer.Logic.Phases.{Continues, InCourse, activated-Continues}

abbrev milli : ℕ → Fixed
milli n = fixed_double.lit n 3

abbrev parameters : CalibrationParameters Fixed
parameters = record {
  center_zone_half_width = milli 1;
  base_velocity = milli 100;
  jerk = milli 1_000_000;
  initial_acceleration = milli 200;
  acceleration_increment = milli 200;
  max_acceleration = milli 400;
  cycles_per_increase = pos 1;
}

abbrev settings : CalibrationSettings Fixed
settings = record {
  trajectory = parameters;
  limits = record {
    excursion_limit = milli 500;
    use_position_bounds = false;
    lower = none;
    upper = none;
  };
  settling_acceleration = milli 200;
  settling_timeout = milli 5_000;
  stationary_velocity = milli 1;
  tracking_tolerance = milli 1;
  stationary_duration = milli 10;
}

abbrev sequencer : CalibrationSequencer Fixed
sequencer = record {
  p = parameters;
  configured = false;
  active = false;
  finished = false;
  start_position = nought;
  commanded_position = nought;
  displacement = nought;
  displacement_error = nought;
  velocity_error = nought;
  velocity = nought;
  acceleration = nought;
  acceleration_limit = nought;
  completed_cycles = pos 0;
  pass_counted = true;
  excessive_periods = 0;
}

abbrev logic : SequencerLogic Fixed
logic = record {
  p = settings;
  sequencer = sequencer;
  state = fresh_snapshot;
  active = false;
  origin = nought;
  settling_cycles = 0;
  stationary_cycles = 0;
}

abbrev at : ℕ → Inputs Fixed
at n = record no_inputs { time_ns = pos (1_000_000 * n) }

starts : (activate settings (at 0) logic).1.state.phase ≡ trajectory
unfolding activate accepts started settings_valid required_excursion reset parameters_valid
    configure Sequencer.activate Sequencer.reset inputs_finite contains bounds_valid multiply divide
    ◌-ℤ◌ ◌+ℤ◌ ◌*ℤ◌
starts = refl

activated-IsGuarded_example :
    IsGuarded (run (update (activate settings (at 0) logic).1 (at 1)) (at 2 ∷ at 3 ∷ []))
activated-IsGuarded_example =
    activated-IsGuarded Fixed-IsIeee settings (at 0) logic (at 1) (at 2 ∷ at 3 ∷ [])

accepted : (activate settings (at 0) logic).0 ≡ true
unfolding activate accepts started settings_valid required_excursion reset parameters_valid
    configure Sequencer.activate Sequencer.reset inputs_finite contains bounds_valid multiply divide
    ◌-ℤ◌ ◌+ℤ◌ ◌*ℤ◌
accepted = refl

activated-Continues_example :
    let m = run (activate settings (at 0) logic).1 (at 1 ∷ at 2 ∷ []) in
    (m.state.valid ≡ true → InCourse m.state.phase)
    × Continues m.state.phase (update m (at 3)).state.phase
activated-Continues_example =
    activated-Continues settings (at 0) logic (at 1 ∷ at 2 ∷ []) (at 3) accepted
