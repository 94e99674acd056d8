-- ===== src/Hardware/Halt.antt =====
-- What a faulted system does: the stop sequence, one frame for each write, and then ERROR.
use zero_force_controller.Common.{
  ℕ, ◌+◌, ◌≡◌, ◌<◌, ◌≤◌, refl, true, false, not, ◌||◌, arith, inl, inr, Bool-cases, ap, sym, ◌∙◌,
}
use zero_force_controller.Double.{Double}
use zero_force_controller.Ethercat.Image.{Ecrt}
use zero_force_controller.Ethercat.Clearpath.{Command}
use zero_force_controller.Ethercat.Cia402.{enable_operation, is_operation_enabled_csp}
use zero_force_controller.Ethercat.Stop.{next, done, word}
use zero_force_controller.Ethercat.System.{configured}
use zero_force_controller.Ethercat.System.Exchange.{guarded}
use zero_force_controller.Ethercat.System.Exchange
use zero_force_controller.Hardware.{Hardware, Result, ok, error, fault, hold_measured}
use zero_force_controller.Hardware.Write.{write, send, intend, stop_step, cleared}

-- One write of a faulted system.
pub record IsHalt {Image D : Type 0} ⦃e : Ecrt Image⦄ (h : Hardware Image D) (now : ℕ)
    (r : Result × Hardware Image D) (c : Command) : Type 0 where
  pub written : r.1.core ≡ Exchange.write h.core c now
  pub asks :
      c.controlword ≡ enable_operation → is_operation_enabled_csp h.core.snapshot.motor ≡ true
  pub faulted : r.1.fault ≡ true
  pub stays : h.stop_sequence.cycle < 120 → (r.0 ≡ ok) × (r.1.active ≡ true)
  pub advances : h.stop_sequence.cycle < 120 → r.1.stop_sequence.cycle ≡ h.stop_sequence.cycle + 1
  pub ends :
      120 ≤ h.stop_sequence.cycle
      → (r.0 ≡ error) × (r.1.active ≡ false) × (r.1.stop_complete ≡ true)

module _ {Image D : Type 0} ⦃e : Ecrt Image⦄ ⦃d : Double D⦄ where
  step_halts :
      (now : ℕ) (h : Hardware Image D)
      → h.fault ≡ true
      → h.active ≡ true
      → (c : Command) × IsHalt h now (stop_step now h) c
  unfolding stop_step hold_measured send next word guarded
  step_halts now h f a = elim (Bool-cases (done h.stop_sequence)) [
    | inl over ↦ ((next h.stop_sequence).0, ground arith)
    | inr on ↦ (guarded (next h.stop_sequence).0 h.core.snapshot.motor, ground arith)
  ]

  cleared_halts :
      (h : Hardware Image D)
      → h.fault ≡ true
      → ((intend (cleared h)).1.fault ≡ true)
        × ((intend (cleared h)).1.active ≡ h.active)
        × ((intend (cleared h)).1.stop_sequence ≡ h.stop_sequence)
        × ((intend (cleared h)).1.core ≡ h.core)
  unfolding intend fault
  cleared_halts h f = ground arith

  write_halts :
      (now : ℕ) (h : Hardware Image D)
      → h.fault ≡ true
      → h.active ≡ true
      → configured h.core ≡ true
      → h.skipped ≡ false
      → write now h ≡ stop_step now (intend (cleared h)).1
  unfolding write
  write_halts now h f a b s =
      let q : (not h.active || not (configured h.core) || h.skipped) ≡ false = rw (a, b, s) in
      rw (q, (cleared_halts h f).0, write) refl

  moved :
      (h h2 : Hardware Image D) (now : ℕ)
      → h2.stop_sequence ≡ h.stop_sequence
      → h2.core ≡ h.core
      → (c : Command) → {r : Result × Hardware Image D} → IsHalt h2 now r c
      → IsHalt h now r c
  moved h h2 now same bus c v = record {
    written = v.written ∙ ap (λ k. Exchange.write k c now) bus;
    asks = λ q. sym (ap (λ k. is_operation_enabled_csp k.snapshot.motor) bus) ∙ v.asks q;
    faulted = v.faulted;
    stays = λ q. v.stays (rw same q);
    advances = λ q. v.advances (rw same q) ∙ ap (λ k. k.cycle + 1) same;
    ends = λ q. v.ends (rw same q);
  }

  -- The write of a faulted system that has not skipped its exchange sends one frame, which asks for
  -- Enable Operation only if the drive is enabled in CSP. It takes one step of the stop sequence and
  -- stays active, or, behind the last step, returns ERROR and is inactive with its shutdown done.
  pub halt_lem :
      (now : ℕ) (h : Hardware Image D)
      → h.fault ≡ true
      → h.active ≡ true
      → configured h.core ≡ true
      → h.skipped ≡ false
      → (c : Command) × IsHalt h now (write now h) c
  halt_lem now h f a b s =
      let h2 = (intend (cleared h)).1 in
      let (still, on, same, bus) = cleared_halts h f in
      let (c, halts) = step_halts now h2 still (on ∙ a) in
      rw (write_halts now h f a b s) (c, moved h h2 now same bus c halts)
