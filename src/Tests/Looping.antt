-- ===== src/Tests/Looping.antt =====
-- One turn of the loop: an enabled drive, whose command interface is claimed, and an activated
-- compliance law.
use zero_force_controller.Common.{◌≡◌, refl, true, false}
use zero_force_controller.Common.Int.{pos, ◌-ℤ◌, ◌*ℤ◌}
use zero_force_controller.Double.Fixed.{Fixed, fixed_double, Fixed-IsIeee, multiply, divide}
use zero_force_controller.Ethercat.Image.{Bytes, bytes_ecrt, read_bytes, Bytes-IsMemory}
use zero_force_controller.Common.{arith}
use zero_force_controller.Ethercat.Clearpath.{read_tx_pdos}
use zero_force_controller.Ethercat.Clearpath.RoundTrip.{RxApart}
use zero_force_controller.Ethercat.Cia402.{is_operation_enabled_csp}
use zero_force_controller.Ethercat.Elm.{read_feedback, read_channel, channel_valid}
use zero_force_controller.Ethercat.System.{is_ready}
use zero_force_controller.Ethercat.System.Exchange.{observe}
use zero_force_controller.Ethercat.System.Exchange
use zero_force_controller.Calibration
use zero_force_controller.Calibration.{Axes, allowed, set_reference}
use zero_force_controller.Hardware.{Hardware, fault, copy_state, can_claim, measured}
use zero_force_controller.Hardware.Read.{
  read, exchange, observe_encoder, watch_startup, watch_operation, watch_timing, bus_fault,
}
use zero_force_controller.ZeroForce
use zero_force_controller.ZeroForce.{ZeroForceLogic}
use zero_force_controller.ZeroForce.Safety.{activate-IsSafe}
use zero_force_controller.Controller.Logics.{zero_force_law, zero_force-IsSound}
use zero_force_controller.Loop.{Loop, turn}
use zero_force_controller.Loop.Turn.{IsDriven, turn-IsDriven}
use zero_force_controller.Tests.Logic.{logic, settings, at}
use zero_force_controller.Tests.Cycle.{operating, now, enabled_poll}
use zero_force_controller.Tests.Guarded.{idle_controller}

abbrev claimed : Hardware Bytes Fixed
claimed = record operating { claimed = true }

abbrev looping : Loop Bytes Fixed (ZeroForceLogic Fixed)
looping = record {
  hardware = claimed;
  controller = record idle_controller {
    active = true;
    logic = (ZeroForce.activate logic settings (at 0)).1;
  };
}

abbrev force_x : Axes Fixed → Fixed
force_x f = f.x

abbrev behind_read : Hardware Bytes Fixed
behind_read = (read now (pos 1_000_000) enabled_poll claimed).1

reads_well :
    (behind_read.fault ≡ false) × (behind_read.skipped ≡ false) × (behind_read.claimed ≡ true)
unfolding read exchange observe_encoder watch_startup watch_operation watch_timing bus_fault
    Exchange.read observe is_ready read_tx_pdos read_feedback read_channel channel_valid read_bytes
    is_operation_enabled_csp Calibration.observe allowed copy_state can_claim measured fault
    multiply divide ◌-ℤ◌ ◌*ℤ◌ set_reference
reads_well = (refl, refl, refl)

operating-RxApart : RxApart operating.core.clearpath_offsets.rx
operating-RxApart = ground arith

turn-IsDriven_example :
    let (done, s') =
      turn zero_force_law force_x now now (pos 1_000_000) (pos 1_000_000) enabled_poll looping in
    IsDriven zero_force_law
      (zero_force-IsSound Fixed-IsIeee)
      behind_read
      s'.hardware
      s'.controller
      done
turn-IsDriven_example =
    turn-IsDriven zero_force_law (zero_force-IsSound Fixed-IsIeee) Fixed-IsIeee Bytes-IsMemory
      force_x now now (pos 1_000_000) (pos 1_000_000) enabled_poll looping operating-RxApart
      (activate-IsSafe Fixed-IsIeee logic settings (at 0)) refl refl refl refl reads_well.0
      reads_well.1 reads_well.2
