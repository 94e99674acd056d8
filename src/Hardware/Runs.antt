-- ===== src/Hardware/Runs.antt =====
-- Sequences of calls of the hardware interface: each of them returns, and the state that it leaves
-- is consistent.
use zero_force_controller.Common.{
  ℕ, ◌≡◌, refl, Bool, true, false, not, ◌||◌, Option, none, some, List, [], ◌∷◌, inl, inr,
  Bool-cases, if◌then◌else◌,
}
use zero_force_controller.Common.Int.{ℤ}
use zero_force_controller.Double.{Double}
use zero_force_controller.Ethercat.Image.{Ecrt}
use zero_force_controller.Ethercat.System.{Poll, Igh, configured}
use zero_force_controller.Ethercat.System.Configure.{release}
use zero_force_controller.Ethercat.System.Shutdown.{shut_down_ends}
use zero_force_controller.Calibration.{SiCalibration}
use zero_force_controller.Hardware.{Hardware, hold_measured, copy_state}
use zero_force_controller.Hardware.Lifecycle.{
  on_configure, on_activate, stop, stopped, on_deactivate, on_cleanup, on_error, reset,
}
use zero_force_controller.Hardware.Switch.{perform_command_mode_switch}
use zero_force_controller.Hardware.Read.{read}
use zero_force_controller.Hardware.Write.{write}
use zero_force_controller.Hardware.Calls.{
  IsConsistent, configure-IsConsistent, activate-IsConsistent, switch-IsConsistent,
  reset-IsConsistent, commanded-IsConsistent, stopped_idle, stopping_idle, copied_idle,
}
use zero_force_controller.Hardware.Cycle.{read-IsConsistent, write-IsConsistent}

-- a call, with what the bus, the clock and the caller answer while it runs
pub data HardwareCall (Image D : Type 0) : Type 0 where
  configuring : Option (SiCalibration D) → Igh Image → HardwareCall Image D
  activating : Igh Image → ℕ → HardwareCall Image D
  switching : Bool → Bool → HardwareCall Image D
  -- the controllers set the command interface
  commanding : D → HardwareCall Image D
  reading : ℕ → ℤ → Poll Image → HardwareCall Image D
  writing : ℕ → HardwareCall Image D
  deactivating cleaning recovering : (ℕ → Option (Poll Image)) → HardwareCall Image D

abbrev state_after {ℓ} : {A : Type ℓ} {R : Type ℓ} → Option (R × A) → Option A
state_after none = none
state_after (some (r, h)) = some h

module _ {Image D : Type 0} ⦃e : Ecrt Image⦄ ⦃d : Double D⦄ where
  -- `none` is a call that does not return.
  abbrev pub call : HardwareCall Image D → Hardware Image D → Option (Hardware Image D)
  call (configuring load igh) h = some (on_configure load igh h).1
  call (activating igh now) h = some (on_activate igh now h).1
  call (switching starts stops) h = some (perform_command_mode_switch starts stops h).1
  call (commanding x) h = some (record h { command = x })
  call (reading now period p) h = some (read now period p h).1
  call (writing now) h = some (write now h).1
  call (deactivating env) h = state_after (on_deactivate env h)
  call (cleaning env) h = state_after (on_cleanup env h)
  call (recovering env) h = state_after (on_error env h)

  abbrev pub run : List (HardwareCall Image D) → Hardware Image D → Option (Hardware Image D)
  run [] h = some h
  run (c ∷ cs) h = elim (call c h) [ none ↦ none | some h' ↦ run cs h' ]

  -- The blocking stop returns, with a hardware that is neither active nor claimed.
  stop_lem :
      (env : ℕ → Option (Poll Image)) (h : Hardware Image D)
      → (r : Bool × Hardware Image D) × (stop env h ≡ some r)
        × (r.1.active ≡ false)
        × (r.1.claimed ≡ false)
  unfolding stop
  stop_lem env h =
      let h1 = record h {
        active = false;
        claimed = false;
        starting = false;
        read_pending = false;
      } in
      let h2 = if configured h1.core then hold_measured h1 else h1 in
      let idle = stopping_idle h in
      elim (Bool-cases (h2.stop_complete || not (configured h2.core))) [
        | inl over ↦ ((true, h2), rw (over, stop), idle.0, idle.1)
        | inr on ↦
            let (r, ends) = shut_down_ends env h2.core in
            let (inactive, free) = stopped_idle h2 r idle.0 idle.1 in
            (stopped h2 r, rw (on, ends, stop), inactive, free)
      ]

  call-IsConsistent :
      (c : HardwareCall Image D) (h : Hardware Image D)
      → IsConsistent h
      → (h' : Hardware Image D) × (call c h ≡ some h') × IsConsistent h'
  unfolding on_deactivate on_cleanup on_error
  call-IsConsistent (configuring load igh) h v = (_, refl, configure-IsConsistent load igh h v)
  call-IsConsistent (activating igh now) h v = (_, refl, activate-IsConsistent igh now h v)
  call-IsConsistent (switching starts stops) h v = (_, refl, switch-IsConsistent starts stops h v)
  call-IsConsistent (commanding x) h v = (_, refl, commanded-IsConsistent x h v)
  call-IsConsistent (reading now period p) h v = (_, refl, read-IsConsistent now period p h v)
  call-IsConsistent (writing now) h v = (_, refl, write-IsConsistent now h v)
  call-IsConsistent (deactivating env) h v =
      let ((b, h'), ends, idle, free) = stop_lem env h in
      (copy_state h', rw (ends, on_deactivate, call), copied_idle h' idle free)
  call-IsConsistent (cleaning env) h v =
      let ((b, h'), ends, idle, free) = stop_lem env h in
      (reset (record h' { core = release h'.core }), rw ends, reset-IsConsistent _)
  call-IsConsistent (recovering env) h v =
      let ((b, h'), ends, idle, free) = stop_lem env h in
      (reset (record h' { core = release h'.core }), rw ends, reset-IsConsistent _)

  -- From a consistent state, any sequence of calls of the interface returns and leaves a consistent
  -- state: only an active, started and unfaulted hardware is claimed, an active one still has its
  -- shutdown to do, and a faulted, inactive or starting one shows no measured values.
  pub calls_lem :
      (calls : List (HardwareCall Image D)) (h : Hardware Image D)
      → IsConsistent h
      → (h' : Hardware Image D) × (run calls h ≡ some h') × IsConsistent h'
  calls_lem [] h v = (h, refl, v)
  calls_lem (c ∷ cs) h v =
      let (h1, steps, v1) = call-IsConsistent c h v in
      let (h2, runs, v2) = calls_lem cs h1 v1 in (h2, rw (steps, run) runs, v2)
