-- ===== src/Tests/Guarded.antt =====
-- A controller whose parameters are set before it is activated, and again while it is active.
use zero_force_controller.Common.{◌≡◌, refl, true, false, none, List, [], ◌∷◌}
use zero_force_controller.Common.Int.{pos, ◌-ℤ◌}
use zero_force_controller.Double.Fixed.{Fixed, fixed_double}
use zero_force_controller.Control.{bounds_valid, contains, inputs_finite}
use zero_force_controller.ZeroForce.{
  ZeroForceLogic, settings_valid, settings_finite, activate, accepts, reset,
}
use zero_force_controller.Double.{nought}
use zero_force_controller.Capture
use zero_force_controller.Output.{fresh_output}
use zero_force_controller.Telemetry
use zero_force_controller.Telemetry.{Pipeline, waiting}
use zero_force_controller.Controller.{Controller, on_activate, update, closing, write_command}
use zero_force_controller.Controller.Logics.{zero_force_law}
use zero_force_controller.Controller.Params.{ZeroForceParams, zero_force_settings}
use zero_force_controller.Controller.Setup
use zero_force_controller.Controller.Setup.{
  Node, Call, sets, activates, updates, zero_force_source, names_valid, on_init, set_parameters,
  call, calls, cycle,
}
use zero_force_controller.Controller.InForce.{settings_in_force}
use zero_force_controller.Controller.Kept.{zero_force-Keeps}
use zero_force_controller.Tests.Logic.{milli, logic, at}
use zero_force_controller.Tests.Drive.{blank, no_status}

-- "c", "l/f"
abbrev params : ZeroForceParams Fixed
params = record {
  common = record {
    joint_name = 99 ∷ [];
    force_interface = 108 ∷ 47 ∷ 102 ∷ [];
    finite_fault_hold = false;
    trial_id = 0;
    excursion_limit_m = milli 500;
    use_position_bounds = false;
    lower_position_m = none;
    upper_position_m = none;
    stationary_velocity_mps = milli 10;
  };
  hold_only = false;
  baseline_duration_s = milli 2;
  noise_duration_s = milli 2;
  acceleration_per_force = milli 1000;
  force_response_sign = pos 1;
  damping_per_s = milli 1000;
  inertial_force_coefficient_kg = milli 0;
  noise_multiplier = milli 3000;
  minimum_deadband_n = milli 100;
  max_acceleration_mps2 = milli 10000;
  max_velocity_mps = milli 500;
  max_force_n = milli 100000;
}

-- Nothing is published here, so the ring needs no room.
abbrev pipeline : Pipeline Fixed
pipeline = record {
  capture = record {
    records = [];
    read = 0;
    write = 0;
    published_drops = 0;
    terminal_pending = false;
    trial = 0;
    sequence = 0;
    drops = 0;
    running = false;
    last = blank;
    terminal = record { final = blank; dropped = 0; completed = false };
  };
  ready = true;
  consumer_trial = 0;
  publication_failures = 0;
  status_pending = false;
  pending_status = no_status;
  samples = [];
  consumed = 0;
  place = waiting;
  log = [];
}

abbrev pub idle_controller : Controller Fixed (ZeroForceLogic Fixed)
idle_controller = record {
  logic = logic;
  output = fresh_output;
  telemetry = pipeline;
  last_trial = 0;
  active = false;
  command = nought;
}

abbrev node : Node Fixed (ZeroForceParams Fixed) (ZeroForceLogic Fixed)
node = record {
  joint_name = [];
  force_interface = [];
  guarded = false;
  params = record params { max_velocity_mps = milli 900 };
  controller = idle_controller;
}

abbrev session : List (Call Fixed (ZeroForceParams Fixed))
session =
    sets params true
    ∷ activates (at 0)
    ∷ sets (record params { max_velocity_mps = milli 1 }) true
    ∷ updates (at 1)
    ∷ []

initialized : (on_init zero_force_law zero_force_source false node).0 ≡ true
unfolding on_init names_valid
initialized = refl

still_active :
    (calls zero_force_law zero_force_source
      (on_init zero_force_law zero_force_source false node).1
      session).controller.active
    ≡ true
unfolding on_init names_valid call set_parameters Setup.activate cycle on_activate update closing
    write_command Telemetry.begin activate accepts reset settings_valid settings_finite bounds_valid
    contains inputs_finite Capture.begin ◌-ℤ◌
still_active = refl

settings_in_force_example :
    (calls zero_force_law zero_force_source
      (on_init zero_force_law zero_force_source false node).1
      session).controller.logic.p
    ≡ zero_force_settings
        (calls zero_force_law zero_force_source
          (on_init zero_force_law zero_force_source false node).1
          session).params
settings_in_force_example =
    settings_in_force zero_force_law zero_force_source (λ l. l.p) zero_force-Keeps false node
      session refl initialized still_active
