-- ===== src/Tests/Setup.antt =====
-- The description of the robot, and the pushes of the simulation.
use Prim.Native.String.{String}
use zero_force_controller.Common.{
  ◌≡◌, refl, true, false, Bool, Option, none, some, List, [], ◌∷◌, ◌||◌, not,
}
use zero_force_controller.Common.Int.{ℤ, pos, ◌-ℤ◌}
use zero_force_controller.Double.{nought, clamp}
use zero_force_controller.Double.Fixed.{Fixed, fixed_double, Fixed-IsIeee, multiply, divide}
use zero_force_controller.Ethercat.Image.{Bytes}
use zero_force_controller.Hardware.{Hardware}
use zero_force_controller.Hardware.Init.{
  HardwareInfo, on_init, parse, parse_parameter, check_all, check, check_states, check_commands,
  claim, is_calibration,
}
use zero_force_controller.Hardware.Initial.{IsInitial, on_init-IsInitial}
use zero_force_controller.Simulation.{
  EntityWrench, Message, wrench, enable, WorldForce, pre_update, is_push,
}
use zero_force_controller.Simulation.Push.{handled, push, Applies, pre_update_lem}
use zero_force_controller.Tests.Cycle.{initial}
use zero_force_controller.Tests.Session.{fresh}

abbrev no_number : String → Option (Fixed × Bool)
no_number text = none

abbrev thousand : String → Option (ℤ × Bool)
thousand text = some (pos 1000, true)

abbrev closed : Hardware Bytes Fixed
closed = record initial { core = fresh }

abbrev info : HardwareInfo
info = record {
  parameters =
      ("update_rate_hz", "1000") ∷ ("diagnostic_mode", "quiet") ∷ ("m_per_count", "1") ∷ [];
  joints =
      record {
        name = "carriage";
        state_interfaces = "velocity" ∷ "position" ∷ [];
        command_interfaces = "position" ∷ [];
      }
      ∷ [];
  sensors =
      record {
        name = "load_cell";
        state_interfaces = "force.x" ∷ "force.y" ∷ "force.z" ∷ [];
        command_interfaces = [];
      }
      ∷ [];
  gpios = [];
}

accepted_info : (on_init no_number thousand true info closed).0 ≡ true
unfolding on_init parse parse_parameter check_all check check_states check_commands claim
    is_calibration
accepted_info = refl

on_init-IsInitial_example : IsInitial info closed (on_init no_number thousand true info closed).2
on_init-IsInitial_example = on_init-IsInitial no_number thousand true info closed accepted_info

abbrev three_newtons : EntityWrench Fixed
three_newtons = record {
  name = "stage::tool_link";
  is_link = true;
  id = 0;
  force_x = nought;
  force_y = nought;
  force_z = fixed_double.lit 3 0;
  torque_x = nought;
  torque_y = nought;
  torque_z = nought;
}

abbrev pushed_once : List (Message Fixed)
pushed_once = wrench three_newtons (pos 1_000) ∷ enable true ∷ []

pre_update_lem_example :
    let w : WorldForce Fixed = record { command = handled pushed_once; linked = true } in
    Applies pushed_once
      (false || not (true || false))
      (pos 2_000)
      (pre_update false false (pos 2_000) w).0
pre_update_lem_example = pre_update_lem Fixed-IsIeee pushed_once false false true (pos 2_000)

-- The push is applied while it is recent.
applied : push pushed_once (pos 2_000) ≡ fixed_double.lit 3 0
unfolding is_push clamp ◌-ℤ◌ multiply divide
applied = refl
