-- ===== src/Hardware/Calls.antt =====
-- Every operation of the hardware interface keeps its state consistent.
use zero_force_controller.Common.{ℕ, ◌+◌, ◌≡◌, Bool, true, false, Option, arith, if◌then◌else◌}
use zero_force_controller.Double.{Double}
use zero_force_controller.Ethercat.Image.{Ecrt}
use zero_force_controller.Ethercat.System.{System, Igh, configured}
use zero_force_controller.Calibration.{SiCalibration}
use zero_force_controller.Hardware.{
  invalid_command, Hardware, FaultReason, fault, enter_fault, copy_state, hold_measured,
  no_si_state, can_claim,
}
use zero_force_controller.Hardware.Lifecycle.{reset, on_configure, on_activate, stopped}
use zero_force_controller.Hardware.Switch.{claim, unclaim, perform_command_mode_switch}

-- Who may move the carriage, and what the state interfaces show.
pub record IsConsistent {Image D : Type 0} ⦃d : Double D⦄ (h : Hardware Image D) : Type 0 where
  pub claimed_active : h.claimed ≡ true → h.active ≡ true
  pub claimed_started : h.claimed ≡ true → h.starting ≡ false
  pub claimed_sound : h.claimed ≡ true → h.fault ≡ false
  pub active_stops : h.active ≡ true → h.stop_complete ≡ false
  pub faulted_hidden : h.fault ≡ true → h.si_state ≡ no_si_state
  pub inactive_hidden : h.active ≡ false → h.si_state ≡ no_si_state
  pub starting_hidden : h.starting ≡ true → h.si_state ≡ no_si_state

module _ {Image D : Type 0} ⦃d : Double D⦄ where
  pub fault-IsConsistent :
      (h : Hardware Image D) (reason : FaultReason) → IsConsistent h → IsConsistent (fault h reason)
  unfolding fault enter_fault hold_measured
  fault-IsConsistent h reason v = ground arith

  pub copy_state-IsConsistent :
      (h : Hardware Image D) → IsConsistent h → IsConsistent (copy_state h)
  unfolding copy_state can_claim
  copy_state-IsConsistent h v = ground arith

  unclaim-IsConsistent : (h : Hardware Image D) → IsConsistent h → IsConsistent (unclaim h)
  unfolding unclaim hold_measured
  unclaim-IsConsistent h v =
      let faulted = record h { invalid_commands = h.invalid_commands + 1 } in
      ground (arith, fault-IsConsistent faulted invalid_command (ground arith))

  claim-IsConsistent : (h : Hardware Image D) → IsConsistent h → IsConsistent (claim h).1
  unfolding claim can_claim hold_measured
  claim-IsConsistent h v = ground arith

  pub switch-IsConsistent :
      (starts stops : Bool) (h : Hardware Image D)
      → IsConsistent h
      → IsConsistent (perform_command_mode_switch starts stops h).1
  unfolding perform_command_mode_switch
  switch-IsConsistent starts stops h v = ground (
    arith,
    unclaim-IsConsistent h v,
    claim-IsConsistent h v,
    claim-IsConsistent (unclaim h) (unclaim-IsConsistent h v),
  )

  pub reset-IsConsistent : (h : Hardware Image D) → IsConsistent (reset h)
  unfolding reset
  reset-IsConsistent h = ground arith

  pub configure-IsConsistent :
      (load : Option (SiCalibration D)) (igh : Igh Image) (h : Hardware Image D)
      → IsConsistent h
      → IsConsistent (on_configure load igh h).1
  unfolding on_configure
  configure-IsConsistent load igh h v = ground arith

module _ {Image D : Type 0} ⦃e : Ecrt Image⦄ ⦃d : Double D⦄ where
  pub activate-IsConsistent :
      (igh : Igh Image) (now : ℕ) (h : Hardware Image D)
      → IsConsistent h
      → IsConsistent (on_activate igh now h).1
  unfolding on_activate copy_state can_claim hold_measured
  activate-IsConsistent igh now h v = ground arith

  pub stopped_idle :
      (h : Hardware Image D) (r : Bool × System Image)
      → h.active ≡ false
      → h.claimed ≡ false
      → ((stopped h r).1.active ≡ false) × ((stopped h r).1.claimed ≡ false)
  unfolding stopped fault enter_fault hold_measured
  stopped_idle h r a c = ground arith

  pub stopping_idle :
      (h : Hardware Image D)
      → let h1 = record h {
        active = false;
        claimed = false;
        starting = false;
        read_pending = false;
      } in
        let h2 = if configured h1.core then hold_measured h1 else h1 in
        (h2.active ≡ false) × (h2.claimed ≡ false)
  unfolding hold_measured
  stopping_idle h = ground arith

  pub copied_idle :
      (h : Hardware Image D) → h.active ≡ false → h.claimed ≡ false → IsConsistent (copy_state h)
  unfolding copy_state can_claim
  copied_idle h a c = ground arith

  pub commanded-IsConsistent :
      (x : D) (h : Hardware Image D) → IsConsistent h → IsConsistent (record h { command = x })
  commanded-IsConsistent x h v = ground arith
