-- ===== src/Tests/Cycle.antt =====
-- The hardware interface in operation, on a process image with an enabled drive and valid samples.
use zero_force_controller.Common.{
  ℕ, ◌≡◌, refl, true, false, none, some, [], ◌∷◌, ◌==◌, arith, if◌then◌else◌,
}
use zero_force_controller.Common.Int.{pos, ◌-ℤ◌, ◌*ℤ◌}
use zero_force_controller.Double.{nought}
use zero_force_controller.Double.Fixed.{Fixed, fixed_double, Fixed-IsIeee, multiply, divide}
use zero_force_controller.Ethercat.Image.{Bytes, bytes_ecrt, read_bytes}
use zero_force_controller.Ethercat.Clearpath.{
  Command, read_tx_pdos, negative_limit_reached, positive_limit_reached,
}
use zero_force_controller.Ethercat.Cia402.{is_operation_enabled_csp}
use zero_force_controller.Ethercat.Counts
use zero_force_controller.Ethercat.Counts.{validate_command, check_counts, too_far, into_limit}
use zero_force_controller.Ethercat.Elm.{ChannelOffsets, read_feedback, read_channel, channel_valid}
use zero_force_controller.Ethercat.Stop.{idle_stop, start}
use zero_force_controller.Ethercat.System
use zero_force_controller.Ethercat.System.{Poll, Snapshot, configured, is_ready}
use zero_force_controller.Ethercat.System.Exchange.{observe}
use zero_force_controller.Ethercat.System.Exchange
use zero_force_controller.Calibration
use zero_force_controller.Calibration.{
  SiCalibration, no_calibration, no_session, position, force, velocity, allowed, set_reference,
}
use zero_force_controller.Hardware.{
  Hardware, no_fault, ok, no_si_state, fault, copy_state, can_claim, measured,
}
use zero_force_controller.Hardware.Switch.{perform_command_mode_switch, prepare_command_mode_switch}
use zero_force_controller.Hardware.Read.{
  read, exchange, observe_encoder, watch_startup, watch_operation, watch_timing, bus_fault,
}
use zero_force_controller.Hardware.Write.{write, intend, command_drive, validated, intended, send}
use zero_force_controller.Hardware.Motion.{IsSound, IsStep}
use zero_force_controller.Hardware.Supervision.{cycle_lem}
use zero_force_controller.Hardware.Halt.{IsHalt, halt_lem}
use zero_force_controller.Hardware.Claim.{prepared_is_granted}
use zero_force_controller.Hardware.Calls.{IsConsistent}
use zero_force_controller.Hardware.Runs.{
  HardwareCall, configuring, activating, switching, commanding, reading, writing, deactivating,
  recovering, calls_lem,
}
use zero_force_controller.Hardware.Runs
use zero_force_controller.Tests.Session.{running, bus, poll, polls}

-- operation enabled, CSP, at 0 counts, and one valid sample
abbrev image : Bytes
image a =
    if a == 13
    then 0x37
    else if a == 14
    then 0x12
    else if a == 15
    then 8
    else if a == 30
    then 1
    else 0

abbrev channel : ChannelOffsets
channel = record {
  number_of_samples = (30, 0);
  error = (31, 0);
  underrange = (31, 1);
  overrange = (31, 2);
  diag = (31, 3);
  txpdo_state = (31, 4);
  cycle_counter = (31, 5);
  sample = 32;
}

abbrev pub now : ℕ
now = 2_000_000

abbrev pub enabled_poll : Poll Bytes
enabled_poll = record (poll now) { received = image }

abbrev one_tick : Fixed
one_tick = fixed_double.lit 1 3

abbrev calibration : SiCalibration Fixed
calibration = record no_calibration {
  m_per_count = one_tick;
  force_scale = record { x = one_tick; y = one_tick; z = one_tick };
  reference_valid = true;
}

abbrev core : System.System Bytes
core = record running { elm_offsets = record { x = channel; y = channel; z = channel } }

abbrev pub initial : Hardware Bytes Fixed
initial = record {
  core = core;
  stop_sequence = idle_stop;
  in_operation = false;
  bus_faulted = false;
  reads = 0;
  writes = 0;
  bus_faults = 0;
  invalid_commands = 0;
  excessive_periods = 0;
  limit_commands = 0;
  si_state = no_si_state;
  calibration = calibration;
  session = no_session;
  command = none;
  startup_timeout = fixed_double.lit 20 0;
  previous = pos 0;
  active = false;
  claimed = false;
  fault = false;
  stop_complete = true;
  read_pending = false;
  prefaulted = false;
  last_read_ns = 0;
  interval_ns = 0;
  activation_end_ns = 0;
  first_fault = no_fault;
  first_write = false;
  starting = false;
  skipped = false;
  startup_begin_ns = 0;
  last_exchange_ns = 0;
  command_changes = 0;
  observed_target = pos 0;
  maximum_interval_ns = 0;
  maximum_tracking_counts = 0;
}

abbrev pub operating : Hardware Bytes Fixed
operating = record initial {
  core = record core { snapshot = observe enabled_poll core.elm_offsets core.clearpath_offsets };
  session = record no_session {
    have_read = true;
    reference_valid = true;
    previous_stationary = true;
    last_ns = 1_000_000;
    velocity = nought;
  };
  active = true;
  stop_complete = false;
  command = nought;
  last_read_ns = 1_000_000;
  last_exchange_ns = 1_000_000;
}

initial-IsConsistent : IsConsistent initial
initial-IsConsistent = ground arith

calls_lem_example :
    (h' : Hardware Bytes Fixed) × (Runs.run
        (recovering polls
          ∷ configuring (some calibration) bus
          ∷ activating bus 1_000
          ∷ reading now (pos 1_000_000) enabled_poll
          ∷ writing now
          ∷ switching true false
          ∷ deactivating polls
          ∷ [])
        initial
      ≡ some h')
    × IsConsistent h'
calls_lem_example =
    calls_lem
      (recovering polls
        ∷ configuring (some calibration) bus
        ∷ activating bus 1_000
        ∷ reading now (pos 1_000_000) enabled_poll
        ∷ writing now
        ∷ switching true false
        ∷ deactivating polls
        ∷ [])
      initial initial-IsConsistent

abbrev after_read : Hardware Bytes Fixed
after_read = (read now (pos 1_000_000) enabled_poll operating).1

read_is_sound : after_read.fault ≡ false
unfolding read exchange observe_encoder watch_startup watch_operation watch_timing bus_fault
    Exchange.read observe is_ready read_tx_pdos read_feedback read_channel channel_valid read_bytes
    is_operation_enabled_csp Calibration.observe allowed copy_state can_claim measured fault
    multiply divide ◌-ℤ◌ ◌*ℤ◌ set_reference
read_is_sound = refl

read_is_taken : after_read.skipped ≡ false
unfolding read exchange observe_encoder watch_startup watch_operation watch_timing bus_fault
    Exchange.read observe is_ready read_tx_pdos read_feedback read_channel channel_valid read_bytes
    is_operation_enabled_csp Calibration.observe allowed copy_state can_claim measured fault
    multiply divide ◌-ℤ◌ ◌*ℤ◌ set_reference
read_is_taken = refl

write_is_sound : (write now after_read).1.fault ≡ false
unfolding read exchange observe_encoder watch_startup watch_operation watch_timing bus_fault
    Exchange.read observe is_ready read_tx_pdos read_feedback read_channel channel_valid read_bytes
    is_operation_enabled_csp Calibration.observe allowed copy_state can_claim measured fault
    multiply divide ◌-ℤ◌ ◌*ℤ◌ set_reference write intend command_drive validated intended send
    validate_command Counts.to_counts check_counts too_far into_limit negative_limit_reached
    positive_limit_reached
write_is_sound = refl

cycle_lem_example :
    IsSound after_read.core.snapshot
    × (c : Command) × IsStep after_read (write now after_read).1 now c
cycle_lem_example =
    cycle_lem Fixed-IsIeee now now (pos 1_000_000) enabled_poll operating refl refl refl
      read_is_sound read_is_taken write_is_sound

abbrev pub faulted : Hardware Bytes Fixed
faulted = record operating { fault = true; stop_sequence = start operating.core.snapshot.motor }

halt_lem_example : (c : Command) × IsHalt faulted now (write now faulted) c
halt_lem_example = halt_lem now faulted refl refl refl refl

prepared : prepare_command_mode_switch true true operating ≡ ok
unfolding prepare_command_mode_switch can_claim measured observe is_ready read_tx_pdos read_feedback
    read_channel channel_valid read_bytes is_operation_enabled_csp position force multiply ◌-ℤ◌ ◌*ℤ◌
prepared = refl

prepared_is_granted_example : (perform_command_mode_switch true true operating).0 ≡ ok
prepared_is_granted_example = prepared_is_granted true true operating refl prepared
