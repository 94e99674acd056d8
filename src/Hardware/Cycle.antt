-- ===== src/Hardware/Cycle.antt =====
-- Both halves of the cycle keep the state of the hardware interface consistent.
use zero_force_controller.Common.{
  ℕ, ◌+◌, ◌≡◌, Bool, true, false, not, ◌||◌, arith, inl, inr, Bool-cases,
}
use zero_force_controller.Common.Int.{ℤ, pos, eqb_ℤ}
use zero_force_controller.Double.{Double}
use zero_force_controller.Ethercat.Image.{Ecrt}
use zero_force_controller.Ethercat.Clearpath.{Command}
use zero_force_controller.Ethercat.Stop.{next, done}
use zero_force_controller.Ethercat.System.{Poll, configured}
use zero_force_controller.Ethercat.System.Exchange.{guarded}
use zero_force_controller.Ethercat.System.Exchange
use zero_force_controller.Calibration.{observe}
use zero_force_controller.Ethercat.Counts.{maximum_velocity}
use zero_force_controller.Hardware.{
  cm_period, monotonic_gap, sequencing, encoder_discontinuity, startup_timeout, Hardware,
  FaultReason, fault_if, copy_state, hold_measured, can_claim,
}
use zero_force_controller.Hardware.Lifecycle.{stop}
use zero_force_controller.Hardware.Read.{
  read, exchange, observe_encoder, watch_startup, watch_operation, watch_timing, note_period,
  clocked, is_early, fault_unless_none, bus_fault,
}
use zero_force_controller.Hardware.Write.{
  cleared, write, send, stop_step, holding, intend, start_drive, command_drive, validated, counted,
  command_fault,
}
use zero_force_controller.Hardware.Calls.{IsConsistent, fault-IsConsistent, copy_state-IsConsistent}

module _ {Image D : Type 0} ⦃d : Double D⦄ where
  fault_if-IsConsistent :
      (b : Bool) (reason : FaultReason) (h : Hardware Image D)
      → IsConsistent h
      → IsConsistent (fault_if b reason h)
  fault_if-IsConsistent true reason h v = fault-IsConsistent h reason v
  fault_if-IsConsistent false reason h v = v

  observe_encoder-IsConsistent :
      (now : ℕ) (h : Hardware Image D) → IsConsistent h → IsConsistent (observe_encoder now h)
  unfolding observe_encoder
  observe_encoder-IsConsistent now h v =
      let motor = h.core.snapshot.motor in
      let (seen, session) =
        observe h.session motor.actual_position now (eqb_ℤ motor.actual_velocity (pos 0))
          h.calibration.m_per_count maximum_velocity in
      let h1 = record h { session = session } in
      ground (arith, fault_if-IsConsistent (not seen) encoder_discontinuity h1 (ground arith))

  watch_startup-IsConsistent :
      (now : ℕ) (h : Hardware Image D) → IsConsistent h → IsConsistent (watch_startup now h)
  unfolding watch_startup
  watch_startup-IsConsistent now h v =
      ground (arith, fault-IsConsistent h monotonic_gap v, fault-IsConsistent h startup_timeout v)

  note_period-IsConsistent :
      (period : ℤ) (h : Hardware Image D) → IsConsistent h → IsConsistent (note_period period h)
  note_period-IsConsistent period h v = ground arith

  watch_timing-IsConsistent :
      (period : ℤ) (h : Hardware Image D) → IsConsistent h → IsConsistent (watch_timing period h)
  unfolding watch_timing
  watch_timing-IsConsistent period h v =
      let h1 = fault_if h.read_pending sequencing h in
      let v1 =
        note_period-IsConsistent period h1 (fault_if-IsConsistent h.read_pending sequencing h v) in
      fault_if-IsConsistent _ cm_period _
        (fault_if-IsConsistent _ monotonic_gap (note_period period h1) v1)

  fault_unless_none-IsConsistent :
      (reason : FaultReason) (h : Hardware Image D)
      → IsConsistent h
      → IsConsistent (fault_unless_none reason h)
  fault_unless_none-IsConsistent reason h v = ground (arith, fault-IsConsistent h reason v)

  watch_operation-IsConsistent :
      (period : ℤ) (h : Hardware Image D) → IsConsistent h → IsConsistent (watch_operation period h)
  unfolding watch_operation
  watch_operation-IsConsistent period h v =
      let reason = bus_fault h.core.snapshot in
      ground (
        arith,
        watch_timing-IsConsistent period (fault_unless_none reason h)
            (fault_unless_none-IsConsistent reason h v),
      )

  start_drive-IsConsistent :
      (c : Command) (h : Hardware Image D) → IsConsistent h → IsConsistent (start_drive c h).1
  unfolding start_drive hold_measured copy_state can_claim
  start_drive-IsConsistent c h v = ground arith

  command_drive-IsConsistent :
      (c : Command) (h : Hardware Image D) → IsConsistent h → IsConsistent (command_drive c h).1
  unfolding command_drive
  command_drive-IsConsistent c h v =
      let result = (validated h).0 in
      ground (arith, fault-IsConsistent (counted result h) (command_fault result) (ground arith))

  intend-IsConsistent : (h : Hardware Image D) → IsConsistent h → IsConsistent (intend h).1
  unfolding intend
  intend-IsConsistent h v =
      ground (
        arith,
        start_drive-IsConsistent (holding h) h v,
        command_drive-IsConsistent (holding h) h v,
      )

module _ {Image D : Type 0} ⦃e : Ecrt Image⦄ ⦃d : Double D⦄ where
  counted-IsConsistent :
      (h : Hardware Image D) → IsConsistent h → IsConsistent (record h { reads = h.reads + 1 })
  counted-IsConsistent h v = ground arith

  clocked-IsConsistent :
      (now : ℕ) (h : Hardware Image D)
      → IsConsistent h
      → IsConsistent (clocked now (record h { reads = h.reads + 1 }))
  clocked-IsConsistent now h v = ground arith

  skipped-IsConsistent :
      (now : ℕ) (h : Hardware Image D)
      → IsConsistent h
      → IsConsistent (record (clocked now (record h { reads = h.reads + 1 })) { skipped = true })
  skipped-IsConsistent now h v = ground arith

  exchange-IsConsistent :
      (now : ℕ) (period : ℤ) (p : Poll Image) (h : Hardware Image D)
      → IsConsistent h
      → IsConsistent (exchange now period p h)
  unfolding exchange
  exchange-IsConsistent now period p h v =
      let h1 = record h { last_exchange_ns = now; core = (Exchange.read h.core p).1 } in
      let v1 : IsConsistent h1 = ground arith in
      let w =
        watch_operation-IsConsistent period _
          (watch_startup-IsConsistent now _ (observe_encoder-IsConsistent now h1 v1)) in
      copy_state-IsConsistent _ (ground arith)

  pub read-IsConsistent :
      (now : ℕ) (period : ℤ) (p : Poll Image) (h : Hardware Image D)
      → IsConsistent h
      → IsConsistent (read now period p h).1
  unfolding read
  read-IsConsistent now period p h v =
      let h1 = clocked now (record h { reads = h.reads + 1 }) in
      elim (Bool-cases (not h.active || not (configured h.core))) [
        | inl e ↦ rw (e, read) (counted-IsConsistent h v)
        | inr e ↦ elim (Bool-cases (is_early now h1)) [
          | inl early ↦
              rw (e, early, read)
                (fault_if-IsConsistent (not h.starting) cm_period (record h1 { skipped = true })
                  (skipped-IsConsistent now h v))
          | inr late ↦
              rw (e, late, read)
                (exchange-IsConsistent now period p h1 (clocked-IsConsistent now h v))
        ]
      ]

  send-IsConsistent :
      (c : Command) (now : ℕ) (h : Hardware Image D) → IsConsistent h → IsConsistent (send c now h)
  unfolding send
  send-IsConsistent c now h v = ground arith

  stop_step-IsConsistent :
      (now : ℕ) (h : Hardware Image D)
      → h.fault ≡ true
      → IsConsistent h
      → IsConsistent (stop_step now h).1
  unfolding stop_step hold_measured
  stop_step-IsConsistent now h f v =
      let held = hold_measured h in
      let (c, stop) = next held.stop_sequence in
      let h1 = record held { stop_sequence = stop } in
      elim (Bool-cases (done h.stop_sequence)) [
        | inl e ↦ rw (e, stop_step) (ground arith)
        | inr e ↦
            rw (e, stop_step)
              (send-IsConsistent (guarded c h1.core.snapshot.motor) now h1 (ground arith))
      ]

  cleared-IsConsistent : (h : Hardware Image D) → IsConsistent h → IsConsistent (cleared h)
  cleared-IsConsistent h v =
      let h1 = record h { writes = h.writes + 1 } in
      let w = fault_if-IsConsistent (not h.read_pending) sequencing h1 (ground arith) in
      ground (arith, w)

  pub write-IsConsistent :
      (now : ℕ) (h : Hardware Image D) → IsConsistent h → IsConsistent (write now h).1
  unfolding write
  write-IsConsistent now h v =
      let h2 = cleared h in
      let (c, h3) = intend h2 in
      let v3 = intend-IsConsistent h2 (cleared-IsConsistent h v) in
      elim (Bool-cases (not h.active || not (configured h.core) || h.skipped)) [
        | inl e ↦ rw (e, write) (ground arith)
        | inr e ↦ elim (Bool-cases h3.fault) [
          | inl f ↦ rw (e, f, write) (stop_step-IsConsistent now h3 f v3)
          | inr f ↦ rw (e, f, write) (send-IsConsistent c now h3 v3)
        ]
      ]
