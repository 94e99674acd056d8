-- ===== src/Hardware/Claim.antt =====
-- Claiming the carriage: what is admitted before a switch of the command mode is granted by it.
use zero_force_controller.Common.{◌≡◌, Bool, true, arith}
use zero_force_controller.Double.{Double}
use zero_force_controller.Hardware.{Hardware, ok, hold_measured, can_claim, measured}
use zero_force_controller.Hardware.Switch.{
  claim, unclaim, perform_command_mode_switch, prepare_command_mode_switch,
}

module _ {Image D : Type 0} ⦃d : Double D⦄ where
  -- A switch that `prepare_command_mode_switch` admits for a finite command is granted by
  -- `perform_command_mode_switch`.
  pub prepared_is_granted :
      (starts stops : Bool) (h : Hardware Image D)
      → d.is_finite h.command ≡ true
      → prepare_command_mode_switch starts stops h ≡ ok
      → (perform_command_mode_switch starts stops h).0 ≡ ok
  unfolding prepare_command_mode_switch perform_command_mode_switch unclaim claim hold_measured
      can_claim measured
  prepared_is_granted starts stops h f r = ground arith
