-- ===== src/Hardware/Write.antt =====
-- `EthercatHardware::write`: the command of the cycle, or the next frame of the stop sequence.
use zero_force_controller.Common.{
  ℕ, ◌+◌, Bool, true, false, not, ◌&&◌, ◌||◌, Option, none, some, max, if◌then◌else◌,
}
use zero_force_controller.Common.Int.{ℤ, pos, ◌-ℤ◌, eqb_ℤ, abs}
use zero_force_controller.Double.{Double}
use zero_force_controller.Ethercat.Image.{Ecrt}
use zero_force_controller.Ethercat.Clearpath.{Command, no_command}
use zero_force_controller.Ethercat.Cia402.{mode_csp, enable_operation, update_csp_enable_state}
use zero_force_controller.Ethercat.Counts.{
  CommandResult, valid, invalid, limit, maximum_velocity, validate_command,
}
use zero_force_controller.Ethercat.Counts
use zero_force_controller.Ethercat.Stop.{next, done}
use zero_force_controller.Ethercat.System.{configured}
use zero_force_controller.Ethercat.System.Exchange.{guarded}
use zero_force_controller.Ethercat.System.Exchange
use zero_force_controller.Calibration.{to_counts}
use zero_force_controller.Hardware.{
  Hardware, FaultReason, Result, ok, error, sequencing, invalid_command, excessive_increment,
  logical_limit, fault, fault_if, hold_measured, copy_state,
}

abbrev pub is_limit : CommandResult → Bool
is_limit limit = true
is_limit _ = false

abbrev pub is_valid : CommandResult → Bool
is_valid valid = true
is_valid _ = false

abbrev pub command_fault : CommandResult → FaultReason
command_fault limit = logical_limit
command_fault Counts.excessive_increment = excessive_increment
command_fault _ = invalid_command

module _ {Image D : Type 0} ⦃d : Double D⦄ where
  open d use {of_int}

  -- a drive that is being enabled
  unfoldable pub start_drive : Command → Hardware Image D → Command × Hardware Image D
  unfolding hold_measured copy_state
  start_drive output h =
      let motor = h.core.snapshot.motor in
      let c = record (update_csp_enable_state motor output).1 {
        target_position = motor.actual_position;
      } in
      let held = hold_measured h in
      if held.core.snapshot.ready && held.session.reference_valid
        && held.calibration.reference_valid
      then (c, copy_state (record held { starting = false }))
      else (c, held)

  -- the claimed command, or the position that is held, in counts
  unfoldable pub intended : Hardware Image D → Option ℤ
  intended h = if h.claimed then to_counts h.calibration h.command else some h.previous

  unfoldable pub validated : Hardware Image D → CommandResult × ℤ
  unfolding intended
  validated h = elim (intended h) [
    | none ↦ (invalid, pos 0)
    | some n ↦ validate_command (of_int n) h.previous h.core.snapshot.motor maximum_velocity (pos 0)
  ]

  abbrev pub counted : CommandResult → Hardware Image D → Hardware Image D
  counted limit h = record h { limit_commands = h.limit_commands + 1 }
  counted _ h = record h { invalid_commands = h.invalid_commands + 1 }

  unfoldable pub command_drive : Command → Hardware Image D → Command × Hardware Image D
  unfolding validated
  command_drive output h =
      let (validation, counts) = validated h in
      let enabled = record output { controlword = enable_operation } in
      if is_valid validation
      then (record enabled { target_position = counts }, record h { previous = counts })
      else (enabled, fault (counted validation h) (command_fault validation))

  -- The write is counted, and it must follow a read.
  abbrev pub cleared : Hardware Image D → Hardware Image D
  cleared h =
      record (fault_if (not h.read_pending) sequencing (record h { writes = h.writes + 1 })) {
        read_pending = false;
      }

  -- the command that holds the last position
  abbrev pub holding : Hardware Image D → Command
  holding h = record no_command { mode_op = mode_csp; target_position = h.previous }

  unfoldable pub intend : Hardware Image D → Command × Hardware Image D
  intend h =
      if h.starting && not h.fault
      then start_drive (holding h) h
      else if h.active && not h.fault
      then command_drive (holding h) h
      else (holding h, h)

module _ {Image D : Type 0} ⦃e : Ecrt Image⦄ ⦃d : Double D⦄ where
  -- the end of `write`: the exchange, and the statistics
  unfoldable pub send : Command → ℕ → Hardware Image D → Hardware Image D
  send c now h =
      let moving = h.claimed && not h.fault in
      let tracked =
        if moving
        then max h.maximum_tracking_counts
            (abs (c.target_position -ℤ h.core.snapshot.motor.actual_position))
        else h.maximum_tracking_counts in
      let changed = moving && not (eqb_ℤ c.target_position h.observed_target) in
      record h {
        core = Exchange.write h.core c now;
        maximum_tracking_counts = tracked;
        observed_target = if changed then c.target_position else h.observed_target;
        command_changes = if changed then h.command_changes + 1 else h.command_changes;
        first_write = false;
      }

  -- One step of the stop sequence; ERROR follows the read behind the last frame.
  unfoldable pub stop_step : ℕ → Hardware Image D → Result × Hardware Image D
  stop_step now h =
      let held = hold_measured h in
      let (c, stop) = next held.stop_sequence in
      let h1 = record held { stop_sequence = stop } in
      if done held.stop_sequence
      then (
        error,
        record h1 { core = Exchange.write h1.core c now; stop_complete = true; active = false },
      )
      else (ok, send (guarded c h1.core.snapshot.motor) now h1)

  unfoldable pub write : ℕ → Hardware Image D → Result × Hardware Image D
  write now h =
      if not h.active || not (configured h.core) || h.skipped
      then (ok, record h { writes = h.writes + 1 })
      else (let (c, h2) = intend (cleared h) in
          if h2.fault then stop_step now h2 else (ok, send c now h2))
