-- ===== src/Hardware/Supervision.antt =====
-- What `read` guarantees of an operating system that it does not fault.
use zero_force_controller.Common.{
  ℕ, ◌+◌, ◌≡◌, Bool, true, false, not, ◌||◌, arith, inl, inr, Bool-cases, ap, ◌∙◌,
}
use zero_force_controller.Common.Int.{ℤ, pos, eqb_ℤ}
use zero_force_controller.Ethercat.Counts.{maximum_velocity}
use zero_force_controller.Calibration.{observe}
use zero_force_controller.Double.{Double}
use zero_force_controller.Double.Laws.{IsIeee}
use zero_force_controller.Ethercat.Image.{Ecrt}
use zero_force_controller.Ethercat.Clearpath.{Command}
use zero_force_controller.Ethercat.System
use zero_force_controller.Ethercat.System.{Snapshot, Poll, configured}
use zero_force_controller.Ethercat.System.Exchange
use zero_force_controller.Hardware.{
  monotonic_gap, startup_timeout, cm_period, sequencing, Hardware, FaultReason, no_fault, fault,
  fault_if, enter_fault, hold_measured, copy_state, encoder_discontinuity,
}
use zero_force_controller.Hardware.Read.{
  read, exchange, bus_fault, watch_operation, watch_timing, note_period, watch_startup,
  observe_encoder, fault_unless_none, clocked, is_early,
}
use zero_force_controller.Hardware.Write.{write}
use zero_force_controller.Hardware.Motion.{
  IsSound, IsStep, bus_fault-IsSound, fault_faults, write_lem,
}

-- the parts of the state that a supervisor leaves alone: a fault is never cleared
pub record Keeps {Image D : Type 0} (h h' : Hardware Image D) : Type 0 where
  pub core : h'.core ≡ h.core
  pub active : h'.active ≡ h.active
  pub starting : h'.starting ≡ h.starting
  pub faulted : h.fault ≡ true → h'.fault ≡ true
  pub sequence : h.fault ≡ true → h'.stop_sequence ≡ h.stop_sequence

module _ {Image D : Type 0} ⦃d : Double D⦄ where
  fault-Keeps : (r : FaultReason) (h : Hardware Image D) → Keeps h (fault h r)
  unfolding fault enter_fault hold_measured
  fault-Keeps r h = ground arith

  pub fault_if-Keeps :
      (b : Bool) (r : FaultReason) (h : Hardware Image D) → Keeps h (fault_if b r h)
  fault_if-Keeps true r h = fault-Keeps r h
  fault_if-Keeps false r h = ground arith

  pub Keeps-trans : {a b c : Hardware Image D} → Keeps a b → Keeps b c → Keeps a c
  Keeps-trans p q = record {
    core = q.core ∙ p.core;
    active = q.active ∙ p.active;
    starting = q.starting ∙ p.starting;
    faulted = λ f. q.faulted (p.faulted f);
    sequence = λ f. q.sequence (p.faulted f) ∙ p.sequence f;
  }

  period-Keeps : (period : ℤ) (h : Hardware Image D) → Keeps h (note_period period h)
  period-Keeps period h = ground arith

  timing-Keeps : (period : ℤ) (h : Hardware Image D) → Keeps h (watch_timing period h)
  unfolding watch_timing
  timing-Keeps period h =
      let h1 = fault_if h.read_pending sequencing h in
      Keeps-trans (fault_if-Keeps h.read_pending sequencing h) (
        Keeps-trans (period-Keeps period h1) (
          Keeps-trans (fault_if-Keeps _ monotonic_gap (note_period period h1))
            (fault_if-Keeps _ cm_period _)))

  pub startup-Keeps : (now : ℕ) (h : Hardware Image D) → Keeps h (watch_startup now h)
  unfolding watch_startup
  startup-Keeps now h = ground (arith, fault-Keeps monotonic_gap h, fault-Keeps startup_timeout h)

  pub encoder-Keeps : (now : ℕ) (h : Hardware Image D) → Keeps h (observe_encoder now h)
  unfolding observe_encoder
  encoder-Keeps now h =
      let motor = h.core.snapshot.motor in
      let (seen, session) =
        observe h.session motor.actual_position now (eqb_ℤ motor.actual_velocity (pos 0))
          h.calibration.m_per_count maximum_velocity in
      let k = fault_if-Keeps (not seen) encoder_discontinuity (record h { session = session }) in
      ground (arith, k)

  -- the supervision of an operating system raises the fault of the bus
  operation_sound :
      (period : ℤ) (h : Hardware Image D)
      → h.active ≡ true
      → h.starting ≡ false
      → (watch_operation period h).fault ≡ false
      → bus_fault h.core.snapshot ≡ no_fault
  unfolding watch_operation
  operation_sound period h a t s =
      let r = bus_fault h.core.snapshot in
      ground (arith, (timing-Keeps period (fault_unless_none r h)).faulted, fault_faults h r)

  unless-Keeps : (r : FaultReason) (h : Hardware Image D) → Keeps h (fault_unless_none r h)
  unless-Keeps r h = ground (arith, fault-Keeps r h)

  early_faults :
      (now : ℕ) (h : Hardware Image D)
      → h.starting ≡ false
      → (fault_if (not h.starting) cm_period (record h { skipped = true })).fault ≡ true
  early_faults now h t = ground (arith, fault_faults (record h { skipped = true }) cm_period)

  pub operation-Keeps : (period : ℤ) (h : Hardware Image D) → Keeps h (watch_operation period h)
  unfolding watch_operation
  operation-Keeps period h =
      let r = bus_fault h.core.snapshot in
      let k = unless-Keeps r h in
      ground (arith, Keeps-trans k (timing-Keeps period (fault_unless_none r h)))

pub read_configured :
    {Image : Type 0} ⦃e : Ecrt Image⦄ (s : System.System Image) (p : Poll Image)
    → configured s ≡ true
    → configured (Exchange.read s p).1 ≡ true
unfolding Exchange.read
read_configured s p h = ground arith

module _ {Image D : Type 0} ⦃e : Ecrt Image⦄ ⦃d : Double D⦄ where
  -- the state that is supervised
  abbrev exchanged : ℕ → Poll Image → Hardware Image D → Hardware Image D
  exchanged now p h = record h { last_exchange_ns = now; core = (Exchange.read h.core p).1 }

  exchange-IsSound :
      (now : ℕ) (period : ℤ) (p : Poll Image) (h : Hardware Image D)
      → h.active ≡ true
      → h.starting ≡ false
      → (exchange now period p h).fault ≡ false
      → IsSound (exchange now period p h).core.snapshot
        × Keeps (exchanged now p h) (exchange now period p h)
  unfolding exchange copy_state
  exchange-IsSound now period p h a t s =
      let h1 = exchanged now p h in
      let h2 = watch_startup now (observe_encoder now h1) in
      let k = Keeps-trans (encoder-Keeps now h1) (startup-Keeps now (observe_encoder now h1)) in
      let w = operation-Keeps period h2 in
      let fine = operation_sound period h2 (k.active ∙ a) (k.starting ∙ t) s in
      let all = Keeps-trans k w in
      (
        rw w.core (bus_fault-IsSound h2.core.snapshot fine),
        record {
          core = all.core;
          active = all.active;
          starting = all.starting;
          faulted = all.faulted;
          sequence = all.sequence;
        },
      )

  -- `read` on an operating system
  pub read-IsSound :
      (now : ℕ) (period : ℤ) (p : Poll Image) (h : Hardware Image D)
      → h.active ≡ true
      → h.starting ≡ false
      → configured h.core ≡ true
      → (read now period p h).1.fault ≡ false
      → (read now period p h).1.skipped ≡ false
      → IsSound (read now period p h).1.core.snapshot
        × ((read now period p h).1.active ≡ true)
        × ((read now period p h).1.starting ≡ false)
        × ((read now period p h).1.core ≡ (Exchange.read h.core p).1)
  unfolding read
  read-IsSound now period p h a t b f s =
      let h1 = clocked now (record h { reads = h.reads + 1 }) in
      let q : (not h.active || not (configured h.core)) ≡ false = rw (a, b) in
      elim (Bool-cases (is_early now h1)) [
        | inl early ↦
            let bad = (early_faults now h1 t) in
            let no : (fault_if (not h1.starting) cm_period (record h1 { skipped = true })).fault
                ≡ false =
              rw (q, early, read) at f in
            cc
        | inr late ↦
            let (sound, k) = exchange-IsSound now period p h1 a t (rw (q, late, read) at f) in
            rw (q, late, read) (sound, k.active ∙ a, k.starting ∙ t, k.core)
      ]

  -- In one cycle of an operating system, an exchange that is not skipped and a write that leaves it
  -- without a fault: the link was up, three slaves responded, the working counter was complete, the
  -- coupler, the terminal and the drive were online and operational, the drive was enabled in CSP and
  -- the three channels of the load cell were valid; and one frame was sent, that asks for Enable
  -- Operation at an `int32_t` that is an allowed step from the last target.
  pub cycle_lem :
      IsIeee D
      → (now later : ℕ) (period : ℤ) (p : Poll Image) (h : Hardware Image D) → h.active ≡ true
      → h.starting ≡ false
      → configured h.core ≡ true
      → (read now period p h).1.fault ≡ false
      → (read now period p h).1.skipped ≡ false
      → (write later (read now period p h).1).1.fault ≡ false
      → let h1 = (read now period p h).1 in
        IsSound h1.core.snapshot × (c : Command) × IsStep h1 (write later h1).1 later c
  cycle_lem ieee now later period p h a t b f s g =
      let h1 = (read now period p h).1 in
      let (sound, active, started, core) = read-IsSound now period p h a t b f s in
      let (c, step) =
        write_lem ieee later h1 active started (ap configured core ∙ read_configured h.core p b) s
          g in
      (sound, c, step)
