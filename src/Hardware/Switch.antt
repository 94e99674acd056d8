-- ===== src/Hardware/Switch.antt =====
-- Claiming and releasing the command interface. The arguments are `HasCommand(start)` and
-- `HasCommand(stop_names)`.
use zero_force_controller.Common.{◌+◌, Bool, true, false, not, ◌&&◌, ◌||◌, if◌then◌else◌}
use zero_force_controller.Double.{Double}
use zero_force_controller.Hardware.{
  Hardware, Result, ok, error, invalid_command, can_claim, hold_measured, fault,
}

module _ {Image D : Type 0} ⦃d : Double D⦄ where
  open d use {is_finite}

  unfoldable pub prepare_command_mode_switch : Bool → Bool → Hardware Image D → Result
  prepare_command_mode_switch starts stops h =
      if starts && (not (can_claim h) || (h.claimed && not stops)) then error else ok

  unfoldable pub unclaim : Hardware Image D → Hardware Image D
  unfolding hold_measured
  unclaim h =
      let h1 =
        if h.active && not (is_finite h.command)
        then fault (record h { invalid_commands = h.invalid_commands + 1 }) invalid_command
        else h in
      hold_measured (record h1 { claimed = false })

  unfoldable pub claim : Hardware Image D → Result × Hardware Image D
  unfolding hold_measured
  claim h =
      if not (can_claim h) || h.claimed
      then (error, h)
      else (let held = hold_measured h in
          (
            ok,
            record held { claimed = true; command_changes = 0; observed_target = held.previous },
          ))

  unfoldable pub perform_command_mode_switch :
      Bool → Bool → Hardware Image D → Result × Hardware Image D
  unfolding unclaim claim
  perform_command_mode_switch starts stops h =
      let h1 = if stops then unclaim h else h in if starts then claim h1 else (ok, h1)
