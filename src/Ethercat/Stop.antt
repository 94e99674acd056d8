-- ===== src/Ethercat/Stop.antt =====
-- `StopSequence` of packages/zfc_ethercat_core/include/ethercat_system.hpp and
-- src/ethercat_system.cpp: the control words that bring the drive to rest, one for each cycle.
pub mod Frames
use zero_force_controller.Common.{ℕ, ◌+◌, Bool, not, ltb, leb, if◌then◌else◌}
use zero_force_controller.Ethercat.Clearpath.{TxPdos, Command, no_command}
use zero_force_controller.Ethercat.Cia402.{
  mode_csp, enable_operation, shutdown, disable_voltage, is_operation_enabled_csp,
}

pub record StopSequence : Type 0 where
  pub cycle : ℕ
  pub command : Command

abbrev pub idle_stop : StopSequence
idle_stop = record { cycle = 120; command = no_command }

abbrev pub done : StopSequence → Bool
done s = leb 120 s.cycle

-- A drive that is not enabled starts behind the enabled part of the sequence.
unfoldable pub start : TxPdos → StopSequence
start motor = record {
  cycle = if is_operation_enabled_csp motor then 0 else 20;
  command = record no_command { mode_op = mode_csp; target_position = motor.actual_position };
}

unfoldable pub word : ℕ → ℕ
word cycle =
    if ltb cycle 20 then enable_operation else if ltb cycle 70 then shutdown else disable_voltage

unfoldable pub next : StopSequence → Command × StopSequence
unfolding word
next s =
    let c = record s.command { controlword = word s.cycle } in
    (c, record { cycle = if not (done s) then s.cycle + 1 else s.cycle; command = c })
