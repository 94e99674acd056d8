-- ===== src/Hardware/Motion.antt =====
-- What an operating system sends to the drive in one cycle.
use zero_force_controller.Common.{
  ℕ, ◌+◌, ◌≡◌, refl, true, false, not, ◌||◌, arith, inl, inr, Bool-cases, Option-cases, ap, ◌∙◌,
}
use zero_force_controller.Common.Int.{pos, IsI32}
use zero_force_controller.Double.{Double}
use zero_force_controller.Double.Laws.{IsIeee}
use zero_force_controller.Ethercat.Image.{Ecrt}
use zero_force_controller.Ethercat.Clearpath.{Command}
use zero_force_controller.Ethercat.Cia402.{enable_operation, is_operation_enabled_csp}
use zero_force_controller.Ethercat.Elm.{channel_valid}
use zero_force_controller.Ethercat.Counts.{CommandResult, valid, invalid, maximum_velocity}
use zero_force_controller.Ethercat.Counts.Bounds.{IsAllowed, validate_command-IsAllowed}
use zero_force_controller.Ethercat.System.{Snapshot, configured, is_complete}
use zero_force_controller.Ethercat.System.Exchange
use zero_force_controller.Hardware.{
  Hardware, FaultReason, no_fault, fault, enter_fault, hold_measured,
}
use zero_force_controller.Hardware.Read.{bus_fault}
use zero_force_controller.Hardware.Write.{
  cleared, write, send, intend, command_drive, validated, intended, stop_step, is_valid, holding,
  counted, command_fault,
}

pub fault_faults :
    {Image D : Type 0} ⦃d : Double D⦄ (h : Hardware Image D) (r : FaultReason)
    → (fault h r).fault ≡ true
unfolding fault enter_fault hold_measured
fault_faults h r = ground arith

-- A bus, a drive and a load cell that are fit for motion.
pub record IsSound (s : Snapshot) : Type 0 where
  pub link : s.bus.master.link_up ≡ true
  pub slaves : s.bus.master.slaves_responding ≡ 3
  pub counter : is_complete s.bus.domain.wc_state ≡ true
  pub coupler_online : s.bus.ek1100.online ≡ true
  pub coupler : s.bus.ek1100.operational ≡ true
  pub terminal_online : s.bus.elm3604.online ≡ true
  pub terminal : s.bus.elm3604.operational ≡ true
  pub drive_online : s.bus.clearpath.online ≡ true
  pub drive : s.bus.clearpath.operational ≡ true
  pub enabled : is_operation_enabled_csp s.motor ≡ true
  pub x : channel_valid s.elm.x ≡ true
  pub y : channel_valid s.elm.y ≡ true
  pub z : channel_valid s.elm.z ≡ true

pub bus_fault-IsSound : (s : Snapshot) → bus_fault s ≡ no_fault → IsSound s
unfolding bus_fault
bus_fault-IsSound s h = ground arith

-- An accepted command of a cycle.
pub record IsStep {Image D : Type 0} ⦃e : Ecrt Image⦄ (h h' : Hardware Image D) (now : ℕ)
    (c : Command) : Type 0 where
  pub written : h'.core ≡ Exchange.write h.core c now
  pub asks : c.controlword ≡ enable_operation
  pub ranged : IsI32 c.target_position
  pub bounded : IsAllowed c.target_position h.previous h.core.snapshot.motor maximum_velocity
  pub remembered : h'.previous ≡ c.target_position

module _ {Image D : Type 0} ⦃d : Double D⦄ where
  pub cleared_sound :
      (h : Hardware Image D)
      → (cleared h).fault ≡ false
      → cleared h ≡ record h { writes = h.writes + 1; read_pending = false }
  unfolding fault enter_fault
  cleared_sound h s = ground arith

  -- what is chosen where no fault is raised
  pub command_sound :
      (c : Command) (h : Hardware Image D)
      → (command_drive c h).1.fault ≡ false
      → (is_valid (validated h).0 ≡ true)
        × (command_drive c h ≡ (
          record c { controlword = enable_operation; target_position = (validated h).1 },
          record h { previous = (validated h).1 },
        ))
  unfolding command_drive
  command_sound c h s = elim (Bool-cases (is_valid (validated h).0)) [
    | inl v ↦ (v, rw (v, command_drive))
    | inr w ↦
        let bad = fault_faults (counted (validated h).0 h) (command_fault (validated h).0) in
        let no : (fault (counted (validated h).0 h) (command_fault (validated h).0)).fault ≡ false =
          rw (w, command_drive) at s in
        cc
  ]

  pub intend_sound :
      (h : Hardware Image D)
      → h.active ≡ true
      → h.starting ≡ false
      → (intend h).1.fault ≡ false
      → (h.fault ≡ false) × (intend h ≡ command_drive (holding h) h)
  unfolding intend
  intend_sound h a t s = ground arith

  pub cleared_active :
      (h : Hardware Image D) → ((cleared h).active ≡ h.active) × ((cleared h).starting ≡ h.starting)
  unfolding fault enter_fault hold_measured
  cleared_active h = ground arith

pub is_valid_lem : (r : CommandResult) → is_valid r ≡ true → r ≡ valid
is_valid_lem r h = ground arith

module _ {Image D : Type 0} ⦃e : Ecrt Image⦄ ⦃d : Double D⦄ where
  stop_step_faults :
      (now : ℕ) (h : Hardware Image D) → h.fault ≡ true → (stop_step now h).1.fault ≡ true
  unfolding stop_step send hold_measured
  stop_step_faults now h f = ground arith

  pub write_sound :
      (now : ℕ) (h : Hardware Image D)
      → h.active ≡ true
      → configured h.core ≡ true
      → h.skipped ≡ false
      → (write now h).1.fault ≡ false
      → ((intend (cleared h)).1.fault ≡ false)
        × ((write now h).1 ≡ send (intend (cleared h)).0 now (intend (cleared h)).1)
  unfolding write
  write_sound now h a b t s =
      let q : (not h.active || not (configured h.core) || h.skipped) ≡ false = rw (a, b, t) in
      elim (Bool-cases (intend (cleared h)).1.fault) [
        | inl f ↦
            let bad = stop_step_faults now (intend (cleared h)).1 f in
            let no : (stop_step now (intend (cleared h)).1).1.fault ≡ false =
              rw (q, f, write) at s in
            cc
        | inr f ↦ (f, rw (q, f, write))
      ]

module _ {Image D : Type 0} ⦃e : Ecrt Image⦄ ⦃d : Double D⦄ (ieee : IsIeee D) where
  validated_lem :
      (h : Hardware Image D)
      → (validated h).0 ≡ valid
      → IsI32 (validated h).1
        × IsAllowed (validated h).1 h.previous h.core.snapshot.motor maximum_velocity
  unfolding validated
  validated_lem h v = elim (Option-cases (intended h)) [
    | inl n ↦ let bad : invalid ≡ valid = rw (n, validated) at v in cc
    | inr (n, q) ↦
        rw (q, validated)
          (validate_command-IsAllowed ieee (d.of_int n) h.previous h.core.snapshot.motor
            maximum_velocity (pos 0) (rw (q, validated) at v))
  ]

  -- Where an operating system writes and does not fault, it sends one frame that asks for Enable
  -- Operation at a target that is an `int32_t` and an allowed step from the last one, which it then
  -- remembers.
  pub write_lem :
      (now : ℕ) (h : Hardware Image D)
      → h.active ≡ true
      → h.starting ≡ false
      → configured h.core ≡ true
      → h.skipped ≡ false
      → (write now h).1.fault ≡ false
      → (c : Command) × IsStep h (write now h).1 now c
  unfolding send
  write_lem now h active started open_bus taken sound =
      let (chosen, runs) = write_sound now h active open_bus taken sound in
      let (same, idle) = cleared_active h in
      let (unfaulted, commands) =
        intend_sound (cleared h) (same ∙ active) (idle ∙ started) chosen in
      let h2 = record h { writes = h.writes + 1; read_pending = false } in
      let clear = cleared_sound h unfaulted in
      let drives : intend (cleared h) ≡ command_drive (holding h2) h2 =
        commands ∙ ap (λ k. command_drive (holding k) k) clear in
      let (accepted, takes) = command_sound (holding h2) h2 (rw drives at chosen) in
      let (ranged, bounded) = validated_lem h2 (is_valid_lem _ accepted) in
      rw (runs, drives, takes)
        (
          record (holding h2) {
            controlword = enable_operation;
            target_position = (validated h2).1;
          },
          record {
            written = refl;
            asks = refl;
            ranged = ranged;
            bounded = bounded;
            remembered = refl;
          },
        )
