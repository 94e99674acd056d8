-- ===== src/Tests/Bus.antt =====
-- The drive's state machine, the stop sequence, the count check, and the system on a process image
-- of bytes.
use zero_force_controller.Common.{
  replicate, ℕ, ◌+◌, ◌*◌, ◌≤◌, ◌≡◌, ◌↔◌, refl, true, ◌++◌, arith, if◌then◌else◌,
}
use zero_force_controller.Common.Int.{pos, negsuc, IsI32, ◌-ℤ◌}
use zero_force_controller.Double.Fixed.{fixed_double, Fixed-IsIeee}
use zero_force_controller.Ethercat.Image.{Bytes, bytes_ecrt}
use zero_force_controller.Ethercat.Clearpath
use zero_force_controller.Ethercat.Clearpath.{
  TxPdos, Command, PdoOffsets, no_command, no_feedback, write_command, read_tx_pdos,
  negative_limit_reached, positive_limit_reached, configure_pdo_offsets,
}
use zero_force_controller.Ethercat.Clearpath.RoundTrip.{CommandFits}
use zero_force_controller.Ethercat.Cia402.{
  fault, unknown, operation_enabled, shutdown, transition, reach_op, update_csp_enable_state,
  decode_statusword, mode_csp, is_operation_enabled_csp, enable_operation,
}
use zero_force_controller.Ethercat.Cia402.Ladder.{
  Cycles, moves, waits, here, resets, readies, switches_on, enables, word_of, distance, Outlook,
  IsAnswer, cycles_lem,
}
use zero_force_controller.Ethercat.Cia402.Decode.{pattern_of, decode_iff}
use zero_force_controller.Ethercat.Stop.{start}
use zero_force_controller.Ethercat.Stop.Frames.{frames, ramp_down, stopping, frames-start}
use zero_force_controller.Ethercat.Counts.{
  valid, validate_command, to_counts, check_counts, too_far, into_limit,
}
use zero_force_controller.Ethercat.Counts.Bounds.{
  IsAllowed, validate_command-IsAllowed, validate_command_iff,
}

decode_iff_example :
    (decode_statusword 0x1237 ≡ operation_enabled) ↔ (pattern_of operation_enabled 0x1237 ≡ true)
decode_iff_example = decode_iff 0x1237 operation_enabled

-- the drive's report of a state word
abbrev reports : ℕ → TxPdos
reports sw = record no_feedback {
  statusword = sw;
  mode_display = mode_csp;
  actual_position = pos 40;
}

-- A drive in a fault is reset, waits for a cycle in Switch On Disabled, and is enabled.
enabling : Cycles shutdown fault 4 0 (word_of (reports 0x23) no_command) operation_enabled
unfolding update_csp_enable_state reach_op transition decode_statusword
enabling = moves (reports 0x08) no_command refl (resets refl) (
    waits (reports 0x40) no_command refl (
      moves (reports 0x40) no_command refl (readies refl) (
        moves (reports 0x21) no_command refl (switches_on refl)
          (moves (reports 0x23) no_command refl (enables refl) here))))

reports_enabled : decode_statusword (reports 0x1237).statusword ≡ operation_enabled
unfolding decode_statusword
reports_enabled = refl

fault_is_known : fault ≡ unknown → ⊥
fault_is_known e = ground arith

cycles_lem_example :
    (4 + distance operation_enabled ≤ distance fault + 5 * 0)
    × Outlook
        (word_of (reports 0x23) no_command)
        (word_of (reports 0x1237) no_command)
        operation_enabled
    × IsAnswer (reports 0x1237) no_command operation_enabled
cycles_lem_example = cycles_lem (reports 0x1237) no_command fault_is_known enabling reports_enabled

abbrev motor : TxPdos
motor = record Clearpath.no_feedback {
  statusword = 0x1237;
  mode_display = pos 8;
  actual_position = pos 500;
}

frames-start_example : frames 121 (start motor) ≡ (
    if is_operation_enabled_csp motor
    then replicate 20 (stopping motor enable_operation) ++ ramp_down motor
    else ramp_down motor)
frames-start_example = frames-start 121 motor (omega arith)

accepted :
    validate_command (fixed_double.of_int (pos 600)) (pos 500) motor (pos 1000) (pos 0)
    ≡ (valid, pos 600)
unfolding validate_command to_counts check_counts too_far into_limit negative_limit_reached
    positive_limit_reached ◌-ℤ◌
accepted = refl

accepted_valid :
    (validate_command (fixed_double.of_int (pos 600)) (pos 500) motor (pos 1000) (pos 0)).0 ≡ valid
accepted_valid = rw accepted refl

validate_command-IsAllowed_example :
    let counts =
      (validate_command (fixed_double.of_int (pos 600)) (pos 500) motor (pos 1000) (pos 0)).1 in
    IsI32 counts × IsAllowed counts (pos 500) motor (pos 1000)
validate_command-IsAllowed_example =
    validate_command-IsAllowed Fixed-IsIeee (fixed_double.of_int (pos 600)) (pos 500) motor
      (pos 1000) (pos 0) accepted_valid

validate_command_iff_example :
    (validate_command (fixed_double.of_int (pos 600)) (pos 500) motor (pos 1000) (pos 0)
      ≡ (valid, pos 600))
    ↔ IsAllowed (pos 600) (pos 500) motor (pos 1000)
validate_command_iff_example =
    validate_command_iff Fixed-IsIeee (pos 600) (pos 500) motor (pos 1000) (pos 0) (omega arith)

abbrev offsets : PdoOffsets
offsets = record {
  rx = record {
    controlword = 0;
    mode_op = 2;
    target_position = 3;
    target_velocity = 7;
    target_torque = 11;
  };
  tx = record {
    statusword = 13;
    mode_display = 15;
    actual_position = 16;
    actual_velocity = 20;
    actual_torque = 24;
    digital_input = 26;
  };
}

abbrev zeros : Bytes
zeros = λ a. 0

abbrev moving : Command
moving = record no_command {
  controlword = enable_operation;
  mode_op = mode_csp;
  target_position = negsuc 1_999;
}

moving_fits : CommandFits moving
moving_fits = ground arith
