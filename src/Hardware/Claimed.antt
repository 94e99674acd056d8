-- ===== src/Hardware/Claimed.antt =====
-- What `write` does with the command of a claimed interface.
use zero_force_controller.Common.{
  ℕ, ◌+◌, ◌≡◌, ◌∙◌, ap, refl, inl, inr, true, false, some, Option-cases, arith,
}
use zero_force_controller.Common.Int.{ℤ, pos, IsI32}
use zero_force_controller.Double.{Double}
use zero_force_controller.Double.Laws.{IsIeee}
use zero_force_controller.Ethercat.Image.{Ecrt, IsMemory}
use zero_force_controller.Ethercat.Counts.{valid, invalid, maximum_velocity}
use zero_force_controller.Ethercat.Counts.Bounds.{validate_command-of_int}
use zero_force_controller.Ethercat.Clearpath.{Command}
use zero_force_controller.Ethercat.Clearpath.RoundTrip.{CommandFits, RxApart}
use zero_force_controller.Ethercat.System.{System, configured}
use zero_force_controller.Ethercat.System.Cycle.{
  commanded, commanded-write, newest_sent, newest_sent-write, frames_sent,
}
use zero_force_controller.Calibration.{to_counts}
use zero_force_controller.Calibration.Safety.{to_counts_lem}
use zero_force_controller.Hardware.{Hardware}
use zero_force_controller.Hardware.Write.{
  intended, validated, command_drive, cleared, holding, intend, send, write,
}
use zero_force_controller.Hardware.Motion.{
  cleared_sound, command_sound, intend_sound, cleared_active, is_valid_lem, write_sound,
}

-- the command that asks an enabled drive for the position `n` in CSP
abbrev pub csp_command : ℤ → Command
csp_command n = record {
  controlword = 15;
  mode_op = pos 8;
  target_position = n;
  target_velocity = pos 0;
  target_torque = pos 0;
}

csp_command-CommandFits : (n : ℤ) → IsI32 n → CommandFits (csp_command n)
csp_command-CommandFits n r = ground arith

-- One frame was sent, which asks for Enable Operation and for `n` counts; the drive finds that in the
-- process image.
pub record IsSent {Image D : Type 0} ⦃e : Ecrt Image⦄ (s : System Image) (h' : Hardware Image D)
    (n : ℤ) : Type 0 where
  pub image : commanded h'.core ≡ some (csp_command n)
  pub newest : newest_sent h'.core.log ≡ some (csp_command n)
  pub one_frame : frames_sent h'.core.log ≡ frames_sent s.log + 1
  pub remembered : h'.previous ≡ n

module _ {Image D : Type 0} ⦃e : Ecrt Image⦄ ⦃d : Double D⦄ (ieee : IsIeee D) where
  valid_intended :
      (h : Hardware Image D)
      → h.claimed ≡ true
      → (validated h).0 ≡ valid
      → (n : ℤ) × (to_counts h.calibration h.command ≡ some n) × ((validated h).1 ≡ n)
  unfolding validated intended
  valid_intended h c v = elim (Option-cases (to_counts h.calibration h.command)) [
    | inl q ↦ let bad : invalid ≡ valid = rw (c, q, validated) at v in cc
    | inr (n, q) ↦
        let ranged = (to_counts_lem ieee h.calibration h.command n q).3 in
        (
          n,
          q,
          rw (c, q, validated)
              (validate_command-of_int ieee n h.previous h.core.snapshot.motor maximum_velocity
                (pos 0) ranged),
        )
  ]

  -- A write of a claimed, operating system that does not fault sends the command in counts.
  pub claimed_lem :
      IsMemory Image
      → (now : ℕ) (h : Hardware Image D) → RxApart h.core.clearpath_offsets.rx
      → h.active ≡ true
      → h.starting ≡ false
      → configured h.core ≡ true
      → h.skipped ≡ false
      → h.claimed ≡ true
      → (write now h).1.fault ≡ false
      → (n : ℤ) × (to_counts h.calibration h.command ≡ some n) × IsSent h.core (write now h).1 n
  unfolding send
  claimed_lem memory now h apart active started open_bus taken claimed sound =
      let (chosen, runs) = write_sound now h active open_bus taken sound in
      let (same, idle) = cleared_active h in
      let (unfaulted, commands) =
        intend_sound (cleared h) (same ∙ active) (idle ∙ started) chosen in
      let h2 = record h { writes = h.writes + 1; read_pending = false } in
      let clear = cleared_sound h unfaulted in
      let drives : intend (cleared h) ≡ command_drive (holding h2) h2 =
        commands ∙ ap (λ k. command_drive (holding k) k) clear in
      let (accepted, takes) = command_sound (holding h2) h2 (rw drives at chosen) in
      let (n, counts, target) = valid_intended h2 claimed (is_valid_lem _ accepted) in
      let ranged = (to_counts_lem ieee h.calibration h.command n counts).3 in
      let c = csp_command n in
      let goes : (write now h).1 ≡ send c now (record h2 { previous = n }) =
        rw (runs, drives, takes, target) in
      (
        n,
        counts,
        rw goes (record {
          image =
              (commanded-write memory h.core c now (csp_command-CommandFits n ranged) apart).0
                open_bus;
          newest = (newest_sent-write h.core c now open_bus).0;
          one_frame = (newest_sent-write h.core c now open_bus).1;
          remembered = refl;
        }),
      )
