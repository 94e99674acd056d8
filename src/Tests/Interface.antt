-- ===== src/Tests/Interface.antt =====
-- The calibration, the encoder session, and the hardware interface in operation.
use Prim.Native.String.{String}
use text.Mathlib.Text.{◌==◌ as str_eq}
use zero_force_controller.Common.{◌≡◌, refl, Bool, true, Option, none, some, [], ◌∷◌, if◌then◌else◌}
use zero_force_controller.Common.Int.{pos, IsI32, ◌-ℤ◌, ◌+ℤ◌, ◌*ℤ◌}
use zero_force_controller.Double.{nought}
use zero_force_controller.Double.Fixed.{Fixed, fixed_double, Fixed-IsIeee, multiply, divide}
use zero_force_controller.Ethercat.Image.{bytes_ecrt}
use zero_force_controller.Calibration.{
  SiCalibration, EncoderSession, no_calibration, no_session, to_counts, in_bounds, position, force,
}
use zero_force_controller.Calibration.Session.{Reading, observes, suspends, run, run_reference}
use zero_force_controller.Calibration.Safety.{to_counts_lem}
use zero_force_controller.Calibration.Load.{
  Parameters, load, confirm, load_axis, load_bounds, parse_number,
}
use zero_force_controller.Calibration.Load.Usable.{IsUsable, load_lem}

abbrev one_tick : Fixed
one_tick = fixed_double.lit 1 3

abbrev calibration : SiCalibration Fixed
calibration = record no_calibration {
  m_per_count = one_tick;
  force_scale = record { x = one_tick; y = one_tick; z = one_tick };
  reference_counts = pos 100;
  reference_valid = true;
}

abbrev metre : Fixed
metre = fixed_double.lit 1 0

in_counts : to_counts calibration metre ≡ some (pos 1_100)
unfolding to_counts in_bounds position divide multiply ◌-ℤ◌ ◌+ℤ◌ ◌*ℤ◌
in_counts = refl

to_counts_lem_example :
    (true ≡ true)
    × (in_bounds calibration metre ≡ true)
    × (in_bounds calibration (position calibration (pos 1_100)) ≡ true)
    × IsI32 (pos 1_100)
to_counts_lem_example = to_counts_lem Fixed-IsIeee calibration metre (pos 1_100) in_counts

abbrev at_rest : Reading
at_rest = record { counts = pos 40; now = 2_000_000; stationary = true }

abbrev resting : EncoderSession Fixed
resting = record no_session {
  have_read = true;
  previous_stationary = true;
  previous = pos 40;
  last_ns = 1_000_000;
}

abbrev referenced : EncoderSession Fixed
referenced = record resting { reference = pos 40; reference_valid = true }

run_reference_example :
    ((run one_tick (pos 1_000) referenced (suspends ∷ observes at_rest ∷ [])).reference_valid
      ≡ true)
    × ((run one_tick (pos 1_000) referenced (suspends ∷ observes at_rest ∷ [])).reference ≡ pos 40)
run_reference_example =
    run_reference one_tick (pos 1_000) referenced (suspends ∷ observes at_rest ∷ []) refl

-- `std::stod` on the texts of the parameters below
abbrev stod : String → Option (Fixed × Bool)
stod t =
    if str_eq t "0.001"
    then some (one_tick, true)
    else if str_eq t "0"
    then some (nought, true)
    else none

abbrev parameters : Parameters
parameters key =
    if str_eq key "m_per_count"
    then some "0.001"
    else if str_eq key "force_x_newtons_per_count"
    then some "0.001"
    else if str_eq key "force_y_newtons_per_count"
    then some "0.001"
    else if str_eq key "force_z_newtons_per_count"
    then some "0.001"
    else if str_eq key "force_z_zero_counts"
    then some "0"
    else if str_eq key "conventions_confirmed"
    then some "true"
    else if str_eq key "force_frame"
    then some "load_cell_link"
    else if str_eq key "force_channel_mapping"
    then some "x,y,z"
    else none

abbrev loaded : SiCalibration Fixed
loaded = record no_calibration {
  m_per_count = one_tick;
  force_scale = record { x = one_tick; y = one_tick; z = one_tick };
}

loads : load stod parameters ≡ some loaded
unfolding load confirm load_axis load_bounds parse_number force multiply ◌-ℤ◌ ◌*ℤ◌
loads = refl

load_lem_example : IsUsable stod parameters loaded
load_lem_example = load_lem stod parameters loaded loads
