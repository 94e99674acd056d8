-- ===== src/Loop/Turn.antt =====
-- A turn of the loop with an active, sound controller that has claimed the command interface.
use zero_force_controller.Common.{
  ℕ, ◌≡◌, ◌∙◌, sym, ap, inl, inr, Bool, true, false, some, Bool-cases, arith,
}
use zero_force_controller.Common.Int.{ℤ}
use zero_force_controller.Double.{Double}
use zero_force_controller.Double.Laws.{IsIeee}
use zero_force_controller.Control.{Inputs, contains}
use zero_force_controller.Ethercat.Image.{Ecrt, IsMemory}
use zero_force_controller.Ethercat.Clearpath.RoundTrip.{RxApart}
use zero_force_controller.Ethercat.System.{System, Poll, configured}
use zero_force_controller.Ethercat.System.Exchange
use zero_force_controller.Output.{resolve, settle}
use zero_force_controller.Calibration.{Axes, SiCalibration, to_counts, in_bounds}
use zero_force_controller.Calibration.Safety.{to_counts_lem}
use zero_force_controller.Hardware.{Hardware}
use zero_force_controller.Hardware.Read.{read}
use zero_force_controller.Hardware.Write.{write}
use zero_force_controller.Hardware.Supervision.{read-IsSound, read_configured}
use zero_force_controller.Hardware.Claimed.{IsSent, claimed_lem}
use zero_force_controller.Controller.{Controller, write_command, update, closing}
use zero_force_controller.Controller.Interface.{Law, IsSound}
use zero_force_controller.Controller.Cycle.{update-IsCommanded}
use zero_force_controller.Loop.{Loop, inputs, commanded, turn}

module _ {D S L : Type 0} ⦃d : Double D⦄ (law : Law D S L) where
  hold_kept :
      (i : Inputs D) (c : Controller D L)
      → (update law i c).1.output.finite_fault_hold ≡ c.output.finite_fault_hold
  unfolding update write_command closing resolve settle
  hold_kept i c = ground arith

module _ {D : Type 0} ⦃d : Double D⦄ where
  in_bounds_finite : (c : SiCalibration D) (q : D) → in_bounds c q ≡ true → d.is_finite q ≡ true
  unfolding in_bounds
  in_bounds_finite c q b = ground arith

read_offsets :
    {Image : Type 0} ⦃e : Ecrt Image⦄ (s : System Image) (p : Poll Image)
    → (Exchange.read s p).1.clearpath_offsets ≡ s.clearpath_offsets
unfolding Exchange.read
read_offsets s p = ground arith

module _ {Image D S L : Type 0} ⦃e : Ecrt Image⦄ ⦃d : Double D⦄ (law : Law D S L)
    (sound : IsSound law) where
  open law use {state}

  -- What a turn leaves, if `h` is the hardware behind its exchange.
  pub record IsDriven (h h' : Hardware Image D) (c : Controller D L) (done : Bool) : Type 0 where
    pub safe : sound.IsSafe c.logic
    pub stops : done ≡ false → h'.fault ≡ true
    pub moves :
        h'.fault ≡ false
        → law.is_active c.logic ≡ true
        → let q = (state c.logic).reference_position in
          (n : ℤ) × (to_counts h.calibration q ≡ some n)
          × IsSent h.core h' n
          × (contains (law.limits c.logic) q (law.origin c.logic) ≡ true)
          × (in_bounds h.calibration q ≡ true)

  module _ (ieee : IsIeee D) (memory : IsMemory Image) where
    -- the update and the write of a turn
    update-IsDriven :
        (later : ℕ) (i : Inputs D) (h : Hardware Image D) (c : Controller D L)
        → RxApart h.core.clearpath_offsets.rx
        → sound.IsReady c.logic
        → c.output.finite_fault_hold ≡ false
        → h.active ≡ true
        → h.starting ≡ false
        → configured h.core ≡ true
        → h.skipped ≡ false
        → h.claimed ≡ true
        → let (done, c') = update law i c in IsDriven h (write later (commanded h c')).1 c' done
    update-IsDriven later i h c apart r plain active started open_bus taken claimed =
        let c' = (update law i c).1 in
        let s = update-IsCommanded law sound i c r in
        let h' = (write later (commanded h c')).1 in
        let sends =
          claimed_lem ieee memory later (commanded h c') apart active started open_bus taken
            claimed in
        let blocked : (update law i c).0 ≡ false → h'.fault ≡ true = λ bad.
          elim (Bool-cases h'.fault) [
            | inl f ↦ f
            | inr f ↦
                let (n, counts, _) = sends f in
                let inside = (to_counts_lem ieee h.calibration c'.command n counts).1 in
                let finite = in_bounds_finite h.calibration c'.command inside in
                let lost = s.blocked bad (hold_kept law i c ∙ plain) in cc
          ] in
        record {
          safe = s.safe;
          stops = blocked;
          moves = λ f runs. elim (Bool-cases (update law i c).0) [
            | inl fine ↦
                let (n, counts, target) = sends f in
                let (same, inside) = s.sent fine runs in
                let within = (to_counts_lem ieee h.calibration c'.command n counts).1 in
                (
                  n,
                  sym (ap (to_counts h.calibration) same) ∙ counts,
                  target,
                  sym (ap (λ q. contains (law.limits c'.logic) q (law.origin c'.logic)) same)
                      ∙ inside,
                  sym (ap (in_bounds h.calibration) same) ∙ within,
                )
            | inr bad ↦ let stopped = blocked bad in cc
          ];
        }

    -- One turn of the loop with an operating system whose exchange is neither skipped nor faulted,
    -- whose command interface is claimed and whose receive entries share no byte, and a sound
    -- controller that holds no fault; an image reads back what is written to it. If the controller
    -- returns ERROR, then the write of the same turn faults. If the turn leaves no fault and the logic
    -- is active, then the write sends one frame, whose command, the one that the drive finds in the
    -- process image, is Enable Operation in CSP at the reference of the controller in counts, and the
    -- reference lies in the motion bounds and in the bounds of the calibration.
    pub turn-IsDriven :
        (axis : Axes D → D) (now later : ℕ) (time period : ℤ) (p : Poll Image) (s : Loop Image D L)
        → RxApart s.hardware.core.clearpath_offsets.rx
        → sound.IsReady s.controller.logic
        → s.controller.output.finite_fault_hold ≡ false
        → s.hardware.active ≡ true
        → s.hardware.starting ≡ false
        → configured s.hardware.core ≡ true
        → (read now period p s.hardware).1.fault ≡ false
        → (read now period p s.hardware).1.skipped ≡ false
        → (read now period p s.hardware).1.claimed ≡ true
        → let (done, s') = turn law axis now later time period p s in
          IsDriven (read now period p s.hardware).1 s'.hardware s'.controller done
    unfolding turn
    turn-IsDriven axis now later time period p s apart r plain a t b f k claimed =
        let h = (read now period p s.hardware).1 in
        let (_, active, started, core) = read-IsSound now period p s.hardware a t b f k in
        update-IsDriven later (inputs axis time period h) h
          (record s.controller { command = h.command })
          (rw (core, read_offsets s.hardware.core p) apart) r plain active started
          (ap configured core ∙ read_configured s.hardware.core p b) k claimed
