-- ===== src/Hardware.antt =====
-- packages/zfc_ethercat_hardware/include/zfc_ethercat_hardware/ethercat_hardware.hpp and
-- src/ethercat_hardware.cpp: the state of the hardware interface and the helpers that its operations
-- share. The operations are in Switch, Lifecycle, Read and Write. A diagnostic record is observed by
-- nothing here, so only the reason of the first fault is kept.
pub mod Switch
pub mod Lifecycle
pub mod Read
pub mod Write
pub mod Calls
pub mod Cycle
pub mod Runs
pub mod Claim
pub mod Motion
pub mod Claimed
pub mod Supervision
pub mod Halt
pub mod Stopping
pub mod Init
pub mod Declared
pub mod Initial
use zero_force_controller.Common.{
  ℕ, ◌+◌, ◌-◌, ◌%◌, ◌^◌, Bool, true, false, not, ◌&&◌, ◌||◌, if◌then◌else◌,
}
use zero_force_controller.Common.Int.{ℤ}
use zero_force_controller.Double.{Double}
use zero_force_controller.Ethercat.Elm.{channel_valid}
use zero_force_controller.Ethercat.Stop.{StopSequence, start}
use zero_force_controller.Ethercat.System.{System}
use zero_force_controller.Calibration.{
  SiCalibration, EncoderSession, Axes, position, velocity, force,
}

pub data FaultReason : Type 0 where
  no_fault startup_timeout master_link slave_count_identity incomplete_wc : FaultReason
  slave_not_operational drive_csp_loss elm_invalid cm_period monotonic_gap : FaultReason
  sequencing invalid_command excessive_increment logical_limit shutdown_failure : FaultReason
  encoder_discontinuity : FaultReason

abbrev pub is_no_fault : FaultReason → Bool
is_no_fault no_fault = true
is_no_fault _ = false

-- `reason >= master_link && reason <= elm_invalid`
abbrev pub is_bus_fault : FaultReason → Bool
is_bus_fault master_link = true
is_bus_fault slave_count_identity = true
is_bus_fault incomplete_wc = true
is_bus_fault slave_not_operational = true
is_bus_fault drive_csp_loss = true
is_bus_fault elm_invalid = true
is_bus_fault _ = false

-- the five state interfaces
pub record SiState (D : Type 0) : Type 0 where
  pub position : D
  pub velocity : D
  pub force : Axes D

-- The members of the array `state_` that the code counts in, [13] and [18] to [24], have names.
pub record Hardware (Image D : Type 0) : Type 0 where
  pub core : System Image
  pub stop_sequence : StopSequence
  pub in_operation : Bool
  pub bus_faulted : Bool
  pub reads : ℕ
  pub writes : ℕ
  pub bus_faults : ℕ
  pub invalid_commands : ℕ
  pub excessive_periods : ℕ
  pub limit_commands : ℕ
  pub si_state : SiState D
  pub calibration : SiCalibration D
  pub session : EncoderSession D
  pub command : D
  pub startup_timeout : D
  pub previous : ℤ
  pub active : Bool
  pub claimed : Bool
  pub fault : Bool
  pub stop_complete : Bool
  pub read_pending : Bool
  pub prefaulted : Bool
  pub last_read_ns : ℕ
  pub interval_ns : ℕ
  pub activation_end_ns : ℕ
  pub first_fault : FaultReason
  pub first_write : Bool
  pub starting : Bool
  pub skipped : Bool
  pub startup_begin_ns : ℕ
  pub last_exchange_ns : ℕ
  pub command_changes : ℕ
  pub observed_target : ℤ
  pub maximum_interval_ns : ℕ
  pub maximum_tracking_counts : ℕ

pub data Result : Type 0 where
  ok error : Result

-- the difference of two `uint64_t` times
abbrev pub since : ℕ → ℕ → ℕ
since now before = (now + (2 ^ 64 - before % 2 ^ 64)) % 2 ^ 64

module _ {D : Type 0} ⦃d : Double D⦄ where
  open d use {is_finite, nan}

  abbrev pub no_si_state : SiState D
  no_si_state = record {
    position = nan;
    velocity = nan;
    force = record { x = nan; y = nan; z = nan };
  }

  abbrev pub all_finite : SiState D → Bool
  all_finite s =
      is_finite s.position
      && is_finite s.velocity
      && is_finite s.force.x
      && is_finite s.force.y
      && is_finite s.force.z

module _ {Image D : Type 0} ⦃d : Double D⦄ where
  open d use {is_finite}

  abbrev pub measured_velocity : Hardware Image D → D
  measured_velocity h =
      if h.calibration.velocity_from_encoder
      then h.session.velocity
      else velocity h.calibration h.core.snapshot.motor.actual_velocity

  -- the state interfaces of an operating, referenced system
  unfoldable pub measured : Hardware Image D → SiState D
  measured h =
      let s = h.core.snapshot in
      let c = h.calibration in
      record {
        position = position c s.motor.actual_position;
        velocity = measured_velocity h;
        force = record {
          x = force c.force_scale.x c.force_zero.x s.elm.x.raw_sample;
          y = force c.force_scale.y c.force_zero.y s.elm.y.raw_sample;
          z = force c.force_scale.z c.force_zero.z s.elm.z.raw_sample;
        };
      }

  unfoldable pub can_claim : Hardware Image D → Bool
  can_claim h =
      let s = h.core.snapshot in
      h.active
      && not h.starting
      && not h.fault
      && s.ready
      && h.session.reference_valid
      && channel_valid s.elm.x
      && channel_valid s.elm.y
      && channel_valid s.elm.z
      && all_finite (measured h)

  unfoldable pub copy_state : Hardware Image D → Hardware Image D
  unfolding can_claim measured
  copy_state h =
      let raw = record h {
        in_operation = h.active && not h.starting && not h.fault && h.core.snapshot.ready;
      } in
      record raw { si_state = if can_claim raw then measured raw else no_si_state }

  unfoldable pub hold_measured : Hardware Image D → Hardware Image D
  hold_measured h =
      let actual = h.core.snapshot.motor.actual_position in
      record h { previous = actual; command = position h.calibration actual }

  -- what `fault` does where there was none
  unfoldable pub enter_fault : Hardware Image D → FaultReason → Hardware Image D
  unfolding hold_measured
  enter_fault h reason =
      let held = hold_measured (record h {
        fault = true;
        claimed = false;
        in_operation = false;
        bus_faulted = is_bus_fault reason || h.bus_faulted;
        bus_faults = if is_bus_fault reason then h.bus_faults + 1 else h.bus_faults;
      }) in
      record held { si_state = no_si_state; stop_sequence = start held.core.snapshot.motor }

  unfoldable pub fault : Hardware Image D → FaultReason → Hardware Image D
  unfolding enter_fault
  fault h reason =
      let h1 = record h {
        first_fault = if is_no_fault h.first_fault then reason else h.first_fault;
      } in
      if h1.fault then h1 else enter_fault h1 reason

  abbrev pub fault_if : Bool → FaultReason → Hardware Image D → Hardware Image D
  fault_if b reason h = if b then fault h reason else h
