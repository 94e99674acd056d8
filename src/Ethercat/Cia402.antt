-- ===== src/Ethercat/Cia402.antt =====
-- packages/zfc_ethercat_core/include/cia402.hpp and src/cia402.cpp: the drive's state word and the
-- control word that takes it one step towards Operation Enabled.
pub mod Decode
pub mod Ladder
use zero_force_controller.Common.{
  ℕ, Bool, true, false, not, ◌&&◌, ◌||◌, bit_and, ◌==◌, if◌then◌else◌,
}
use zero_force_controller.Common.Int.{ℤ, pos, eqb_ℤ}
use zero_force_controller.Ethercat.Clearpath.{TxPdos, Command}

abbrev pub mode_csp : ℤ
mode_csp = pos 8

abbrev pub disable_voltage : ℕ
disable_voltage = 0x0000

abbrev pub shutdown : ℕ
shutdown = 0x0006

abbrev pub switch_on : ℕ
switch_on = 0x0007

abbrev pub enable_operation : ℕ
enable_operation = 0x000f

abbrev pub fault_reset : ℕ
fault_reset = 0x0080

pub data State : Type 0 where
  not_ready_to_switch_on switch_on_disabled ready_to_switch_on switched_on : State
  operation_enabled quick_stop_active fault_reaction_active fault unknown : State

unfoldable pub decode_statusword : ℕ → State
decode_statusword sw =
    if bit_and sw 0x4f == 0x08
    then fault
    else if bit_and sw 0x4f == 0x0f
    then fault_reaction_active
    else if bit_and sw 0x6f == 0x07
    then quick_stop_active
    else if bit_and sw 0x6f == 0x27
    then operation_enabled
    else if bit_and sw 0x6f == 0x23
    then switched_on
    else if bit_and sw 0x6f == 0x21
    then ready_to_switch_on
    else if bit_and sw 0x4f == 0x40
    then switch_on_disabled
    else if bit_and sw 0x4f == 0x00
    then not_ready_to_switch_on
    else unknown

unfoldable pub is_operation_enabled : ℕ → Bool
is_operation_enabled sw = bit_and sw 0x6f == 0x27

unfoldable pub is_operation_enabled_csp : TxPdos → Bool
unfolding is_operation_enabled
is_operation_enabled_csp feedback =
    is_operation_enabled feedback.statusword && eqb_ℤ feedback.mode_display mode_csp

-- the `switch` of `ReachOp`: the control word, and whether the drive is enabled
unfoldable pub transition : State → ℕ × Bool
transition fault = (fault_reset, false)
transition switch_on_disabled = (shutdown, false)
transition ready_to_switch_on = (switch_on, false)
transition switched_on = (enable_operation, false)
transition operation_enabled = (enable_operation, true)
transition quick_stop_active = (enable_operation, false)
transition fault_reaction_active = (shutdown, false)
transition not_ready_to_switch_on = (shutdown, false)
transition unknown = (shutdown, false)

unfoldable pub reach_op : TxPdos → Command → Bool × Command
reach_op feedback c =
    let (word, enabled) = transition (decode_statusword feedback.statusword) in
    (enabled, record c { controlword = word })

unfoldable pub update_csp_enable_state : TxPdos → Command → Bool × Command
update_csp_enable_state feedback c =
    let (op_enabled, c1) =
      reach_op feedback
        (record c { mode_op = mode_csp; target_velocity = pos 0; target_torque = pos 0 }) in
    let in_csp = eqb_ℤ feedback.mode_display mode_csp in
    (
      op_enabled && in_csp,
      if not op_enabled || not in_csp
          then record c1 { target_position = feedback.actual_position }
          else c1,
    )
