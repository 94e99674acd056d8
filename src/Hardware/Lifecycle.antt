-- ===== src/Hardware/Lifecycle.antt =====
-- The lifecycle callbacks. What the bus and the clock answer is an argument, and a blocking stop that
-- did not end would be `none`.
use zero_force_controller.Common.{
  ℕ, Bool, true, false, not, ◌||◌, Option, none, some, if◌then◌else◌,
}
use zero_force_controller.Common.Int.{pos}
use zero_force_controller.Double.{Double}
use zero_force_controller.Ethercat.Image.{Ecrt}
use zero_force_controller.Ethercat.Stop.{idle_stop}
use zero_force_controller.Ethercat.System.{System, Poll, Igh, configured}
use zero_force_controller.Ethercat.System.Configure.{release, activate, configure}
use zero_force_controller.Ethercat.System.Exchange.{shut_down}
use zero_force_controller.Calibration.{SiCalibration, no_session, clear_reference, suspend}
use zero_force_controller.Hardware.{
  Hardware, no_fault, shutdown_failure, no_si_state, copy_state, hold_measured, fault_if,
}

pub data Callback : Type 0 where
  success failure callback_error : Callback

abbrev pub callback : Bool → Callback
callback true = success
callback false = callback_error

module _ {Image D : Type 0} ⦃d : Double D⦄ where
  unfoldable pub reset : Hardware Image D → Hardware Image D
  reset h = record h {
    in_operation = false;
    bus_faulted = false;
    reads = 0;
    writes = 0;
    bus_faults = 0;
    invalid_commands = 0;
    excessive_periods = 0;
    limit_commands = 0;
    session = no_session;
    calibration = clear_reference h.calibration;
    si_state = no_si_state;
    previous = pos 0;
    active = false;
    claimed = false;
    fault = false;
    read_pending = false;
    prefaulted = false;
    stop_complete = true;
    last_read_ns = 0;
    stop_sequence = idle_stop;
  }

  -- `load` is the result of `SiCalibration::load`.
  unfoldable pub on_configure :
      Option (SiCalibration D) → Igh Image → Hardware Image D → Callback × Hardware Image D
  on_configure load igh h = elim load [
    | none ↦ (failure, record h { first_fault = no_fault })
    | some c ↦
        let (done, core) = configure igh h.core in
        (
          if done then success else failure,
          record h { first_fault = no_fault; calibration = c; core = core },
        )
  ]

module _ {Image D : Type 0} ⦃e : Ecrt Image⦄ ⦃d : Double D⦄ where
  -- `now` is the clock after `core_.activate`.
  unfoldable pub on_activate : Igh Image → ℕ → Hardware Image D → Callback × Hardware Image D
  on_activate igh now h =
      let (done, core) = activate igh h.core in
      let h1 = record h { core = core } in
      if not done then (callback_error, h1) else (
        success,
        copy_state (
            hold_measured (record h1 {
              stop_complete = false;
              fault = false;
              active = true;
              starting = true;
              claimed = false;
              read_pending = false;
              skipped = false;
              last_read_ns = 0;
              last_exchange_ns = 0;
              maximum_interval_ns = 0;
              maximum_tracking_counts = 0;
              startup_begin_ns = now;
              activation_end_ns = now;
              first_write = true;
            })),
      )

  -- the part of `stop` behind `core_.shutdown()`
  unfoldable pub stopped : Hardware Image D → Bool × System Image → Bool × Hardware Image D
  unfolding hold_measured
  stopped h (done, core) =
      let held = hold_measured (record h { core = core }) in
      let h1 = record held { session = suspend held.session } in
      (done, record (fault_if (not done) shutdown_failure h1) { stop_complete = true })

  -- `none` is a shutdown that does not end.
  unfoldable pub stop :
      (ℕ → Option (Poll Image)) → Hardware Image D → Option (Bool × Hardware Image D)
  unfolding stopped hold_measured
  stop env h =
      let h1 = record h {
        active = false;
        claimed = false;
        starting = false;
        read_pending = false;
      } in
      let h2 = if configured h1.core then hold_measured h1 else h1 in
      if h2.stop_complete || not (configured h2.core)
      then some (true, h2)
      else elim (shut_down env h2.core) [ none ↦ none | some r ↦ some (stopped h2 r) ]

  abbrev deactivated : Option (Bool × Hardware Image D) → Option (Callback × Hardware Image D)
  deactivated none = none
  deactivated (some (done, h)) = some (callback done, copy_state h)

  unfoldable pub on_deactivate :
      (ℕ → Option (Poll Image)) → Hardware Image D → Option (Callback × Hardware Image D)
  on_deactivate env h = deactivated (stop env h)

  abbrev cleaned : Option (Bool × Hardware Image D) → Option (Callback × Hardware Image D)
  cleaned none = none
  cleaned (some (done, h)) = some (callback done, reset (record h { core = release h.core }))

  -- `on_cleanup`, and `on_shutdown`, which calls it
  unfoldable pub on_cleanup :
      (ℕ → Option (Poll Image)) → Hardware Image D → Option (Callback × Hardware Image D)
  on_cleanup env h = cleaned (stop env h)

  abbrev recovered : Option (Bool × Hardware Image D) → Option (Callback × Hardware Image D)
  recovered none = none
  recovered (some (done, h)) = some (success, reset (record h { core = release h.core }))

  unfoldable pub on_error :
      (ℕ → Option (Poll Image)) → Hardware Image D → Option (Callback × Hardware Image D)
  on_error env h = recovered (stop env h)
