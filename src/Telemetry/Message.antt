-- ===== src/Telemetry/Message.antt =====
-- The messages that the publisher sends (packages/zfc_interfaces/msg: ControllerState, TelemetryBatch
-- and TrialStatus), and how packages/zfc_interfaces/include/zfc_interfaces/telemetry_publisher.hpp
-- fills them. A stamp is its nanoseconds.
use zero_force_controller.Common.{ℕ, Bool, ◌&&◌, List, ◌==◌}
use zero_force_controller.Common.Int.{ℤ}
use zero_force_controller.Control.{
  Phase, idle, baseline, noise, compliant, hold, faulted, trajectory, settling, complete, Fault,
  no_fault, feedback, period, bounds, settings, settling_timeout, Snapshot,
}
use zero_force_controller.Capture.{CaptureRecord, Completion}

-- the values of the enumerations
abbrev pub phase_code : Phase → ℕ
phase_code idle = 0
phase_code baseline = 1
phase_code noise = 2
phase_code compliant = 3
phase_code hold = 4
phase_code faulted = 5
phase_code trajectory = 10
phase_code settling = 11
phase_code complete = 12

abbrev pub fault_code : Fault → ℕ
fault_code no_fault = 0
fault_code feedback = 1
fault_code period = 2
fault_code bounds = 3
fault_code settings = 4
fault_code settling_timeout = 5

-- ControllerState
pub record Sample (D : Type 0) : Type 0 where
  pub stamp : ℤ
  pub trial_id : ℕ
  pub sequence : ℕ
  pub phase : ℕ
  pub fault_code : ℕ
  pub valid : Bool
  pub position : D
  pub velocity : D
  pub force : D
  pub reference_position : D
  pub reference_velocity : D
  pub reference_acceleration : D
  pub baseline_force : D
  pub noise_rms : D
  pub residual_force : D
  pub progress : D
  pub excessive_periods : ℕ

pub record Batch (D : Type 0) : Type 0 where
  pub stamp : ℤ
  pub samples : List (Sample D)
  pub dropped_samples : ℕ
  pub failed_publication_samples : ℕ

pub record TrialStatus : Type 0 where
  pub stamp : ℤ
  pub trial_id : ℕ
  pub final_sequence : ℕ
  pub dropped_samples : ℕ
  pub failed_publication_samples : ℕ
  pub phase : ℕ
  pub fault_code : ℕ
  pub completed : Bool
  pub successful : Bool
  pub capture_complete : Bool

module _ {D : Type 0} where
  abbrev pub to_sample : CaptureRecord (Snapshot D) → Sample D
  to_sample r = record {
    stamp = r.state.measured.time_ns;
    trial_id = r.trial_id;
    sequence = r.sequence;
    phase = phase_code r.state.phase;
    fault_code = fault_code r.state.fault;
    valid = r.state.valid;
    position = r.state.measured.position;
    velocity = r.state.measured.velocity;
    force = r.state.measured.force;
    reference_position = r.state.reference_position;
    reference_velocity = r.state.reference_velocity;
    reference_acceleration = r.state.reference_acceleration;
    baseline_force = r.state.baseline_force;
    noise_rms = r.state.noise_rms;
    residual_force = r.state.residual_force;
    progress = r.state.progress;
    excessive_periods = r.state.excessive_periods;
  }

  -- `failures` is the publisher's count.
  abbrev pub to_status : Completion (Snapshot D) → ℕ → TrialStatus
  to_status done failures = record {
    stamp = done.final.state.measured.time_ns;
    trial_id = done.final.trial_id;
    final_sequence = done.final.sequence;
    dropped_samples = done.dropped;
    failed_publication_samples = failures;
    phase = phase_code done.final.state.phase;
    fault_code = fault_code done.final.state.fault;
    completed = done.completed;
    successful = done.completed && done.final.state.valid;
    capture_complete = done.dropped == 0 && failures == 0;
  }
