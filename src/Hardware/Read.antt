-- ===== src/Hardware/Read.antt =====
-- `EthercatHardware::read`: one exchange, the encoder session, and the supervision of the cycle.
use zero_force_controller.Common.{
  ℕ, ◌+◌, Bool, true, false, not, ◌&&◌, ◌||◌, ◌==◌, ltb, max, if◌then◌else◌,
}
use zero_force_controller.Common.Int.{ℤ, pos, ltb_ℤ, leb_ℤ, eqb_ℤ}
use zero_force_controller.Double.{Double}
use zero_force_controller.Ethercat.Image.{Ecrt}
use zero_force_controller.Ethercat.Elm.{channel_valid}
use zero_force_controller.Ethercat.Cia402.{is_operation_enabled_csp}
use zero_force_controller.Ethercat.Counts.{maximum_velocity}
use zero_force_controller.Ethercat.System.{Snapshot, Poll, configured, is_complete}
use zero_force_controller.Ethercat.System.Exchange
use zero_force_controller.Calibration.{observe, set_reference}
use zero_force_controller.Hardware.{
  Hardware, FaultReason, Result, ok, no_fault, startup_timeout, master_link, slave_count_identity,
  incomplete_wc, slave_not_operational, drive_csp_loss, elm_invalid, cm_period, monotonic_gap,
  sequencing, encoder_discontinuity, since, fault, fault_if, copy_state,
}

-- the first thing that is wrong with the bus, the drive or the load cell
unfoldable pub bus_fault : Snapshot → FaultReason
bus_fault s =
    let b = s.bus in
    if not b.master.link_up
    then master_link
    else if not (b.master.slaves_responding == 3)
    then slave_count_identity
    else if not (is_complete b.domain.wc_state)
    then incomplete_wc
    else if not b.ek1100.online
        || not b.ek1100.operational
        || not b.elm3604.online
        || not b.elm3604.operational
        || not b.clearpath.online
        || not b.clearpath.operational
    then slave_not_operational
    else if not (is_operation_enabled_csp s.motor)
    then drive_csp_loss
    else if not (channel_valid s.elm.x)
        || not (channel_valid s.elm.y)
        || not (channel_valid s.elm.z)
    then elm_invalid
    else no_fault

module _ {Image D : Type 0} ⦃d : Double D⦄ where
  open d use {mul, to_int, lit}

  abbrev pub fault_unless_none : FaultReason → Hardware Image D → Hardware Image D
  fault_unless_none no_fault h = h
  fault_unless_none reason h = fault h reason

  -- The session follows the encoder while the bus is ready, and gives the calibration its zero.
  unfoldable pub observe_encoder : ℕ → Hardware Image D → Hardware Image D
  observe_encoder now h =
      if h.core.snapshot.ready && not h.fault
      then (let motor = h.core.snapshot.motor in
          let (seen, session) =
            observe h.session motor.actual_position now (eqb_ℤ motor.actual_velocity (pos 0))
              h.calibration.m_per_count maximum_velocity in
          let h1 = fault_if (not seen) encoder_discontinuity (record h { session = session }) in
          if h1.session.reference_valid && not h1.calibration.reference_valid
          then record h1 { calibration = (set_reference h1.calibration h1.session.reference).1 }
          else h1)
      else h

  unfoldable pub watch_startup : ℕ → Hardware Image D → Hardware Image D
  watch_startup now h =
      if h.starting && not h.fault
      then (if h.first_write && ltb 10_000_000 (since now h.activation_end_ns)
          then fault h monotonic_gap
          else if ltb_ℤ (to_int (mul h.startup_timeout (lit 1_000_000_000 0)))
              (pos (since now h.startup_begin_ns))
          then fault h startup_timeout
          else if ltb 10_000_000 h.interval_ns
          then fault h monotonic_gap
          else h)
      else h

  -- `if (period.nanoseconds() > 1500000) ++state_[23];`
  abbrev pub note_period : ℤ → Hardware Image D → Hardware Image D
  note_period period h =
      if ltb_ℤ (pos 1_500_000) period
      then record h { excessive_periods = h.excessive_periods + 1 }
      else h

  -- the checks of the timing, behind those of the bus
  unfoldable pub watch_timing : ℤ → Hardware Image D → Hardware Image D
  watch_timing period h =
      let h1 = note_period period (fault_if h.read_pending sequencing h) in
      let h2 = fault_if (ltb 10_000_000 h1.interval_ns) monotonic_gap h1 in
      fault_if
        (not (h2.interval_ns == 0) && (leb_ℤ period (pos 0) || ltb_ℤ (pos 10_000_000) period))
        cm_period h2

  unfoldable pub watch_operation : ℤ → Hardware Image D → Hardware Image D
  watch_operation period h =
      if h.active && not h.starting
      then watch_timing period (fault_unless_none (bus_fault h.core.snapshot) h)
      else h

  -- the times of the cycle
  abbrev pub clocked : ℕ → Hardware Image D → Hardware Image D
  clocked now h =
      let interval = if h.last_read_ns == 0 then 0 else since now h.last_read_ns in
      record h {
        prefaulted = true;
        interval_ns = interval;
        maximum_interval_ns = max h.maximum_interval_ns interval;
        last_read_ns = now;
        skipped = false;
      }

  -- a cycle that comes too soon
  abbrev pub is_early : ℕ → Hardware Image D → Bool
  is_early now h = not (h.last_exchange_ns == 0) && ltb (since now h.last_exchange_ns) 500_000

module _ {Image D : Type 0} ⦃e : Ecrt Image⦄ ⦃d : Double D⦄ where
  -- the exchange and what follows it
  unfoldable pub exchange : ℕ → ℤ → Poll Image → Hardware Image D → Hardware Image D
  exchange now period p h =
      let h1 = record h { last_exchange_ns = now; core = (Exchange.read h.core p).1 } in
      let h2 = watch_operation period (watch_startup now (observe_encoder now h1)) in
      copy_state (record h2 { read_pending = true })

  unfoldable pub read : ℕ → ℤ → Poll Image → Hardware Image D → Result × Hardware Image D
  read now period p h =
      let h1 = record h { reads = h.reads + 1 } in
      if not h1.active || not (configured h1.core)
      then (ok, h1)
      else (let h2 = clocked now h1 in
          if is_early now h2
          then (ok, fault_if (not h2.starting) cm_period (record h2 { skipped = true }))
          else (ok, exchange now period p h2))
