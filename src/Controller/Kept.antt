-- ===== src/Controller/Kept.antt =====
-- Both logics take the settings of an accepted activation, and keep them.
use zero_force_controller.Common.{◌≡◌, refl, arith}
use zero_force_controller.Double.{Double}
use zero_force_controller.Control.{
  Phase, idle, baseline, noise, compliant, hold, faulted, trajectory, settling, complete, Inputs,
  count_period, increment,
}
use zero_force_controller.ZeroForce
use zero_force_controller.ZeroForce.{
  ZeroForceSettings, ZeroForceLogic, measure_baseline, measure_noise, accumulate_noise, comply,
  holding,
}
use zero_force_controller.Sequencer
use zero_force_controller.Sequencer.Logic
use zero_force_controller.Sequencer.Logic.{
  CalibrationSettings, SequencerLogic, check_reference, follow, followed, settle, slow_down, rest,
}
use zero_force_controller.Controller.Logics.{zero_force_law, calibration_law}
use zero_force_controller.Controller.InForce.{Keeps}

module _ {D : Type 0} ⦃d : Double D⦄ where
  open d use {sub, fabs}

  accumulate_keeps : (l : ZeroForceLogic D) (x : D) → (accumulate_noise l x).p ≡ l.p
  unfolding accumulate_noise
  accumulate_keeps l x = ground arith

  zero_force_by_phase :
      (q : Phase) (l : ZeroForceLogic D) (i : Inputs D) → (ZeroForce.by_phase q l i).p ≡ l.p
  unfolding ZeroForce.by_phase measure_baseline measure_noise comply
  zero_force_by_phase hold l i = refl
  zero_force_by_phase baseline l i = ground arith
  zero_force_by_phase noise l i =
      ground (arith, accumulate_keeps (holding l i) (fabs (sub i.force l.state.baseline_force)))
  zero_force_by_phase idle l i = ground arith
  zero_force_by_phase compliant l i = ground arith
  zero_force_by_phase faulted l i = ground arith
  zero_force_by_phase trajectory l i = ground arith
  zero_force_by_phase settling l i = ground arith
  zero_force_by_phase complete l i = ground arith

  zero_force_update : (i : Inputs D) (l : ZeroForceLogic D) → (ZeroForce.update l i).p ≡ l.p
  unfolding ZeroForce.update
  zero_force_update i l =
      let c = count_period i l.state in
      ground (arith, zero_force_by_phase c.phase (record l { state = record c { measured = i } }) i)

  pub zero_force-Keeps : Keeps {D = D} zero_force_law (λ l. l.p)
  unfolding ZeroForce.activate
  zero_force-Keeps = record { takes = λ p i l h. ground arith; keeps = zero_force_update }

  check_keeps : (v : D) (i : Inputs D) (l : SequencerLogic D) → (check_reference v i l).p ≡ l.p
  unfolding check_reference
  check_keeps v i l = ground arith

  follow_keeps : (l : SequencerLogic D) (i : Inputs D) → (follow l i).p ≡ l.p
  unfolding follow
  follow_keeps l i =
      let q = (Sequencer.update i.period_ns l.sequencer).1 in
      ground (arith, check_keeps l.state.reference_velocity i (followed l q))

  settle_keeps : (l : SequencerLogic D) (i : Inputs D) → (settle l i).p ≡ l.p
  unfolding settle
  settle_keeps l i =
      let l1 = record l { settling_cycles = increment l.settling_cycles } in
      ground (arith, check_keeps l.state.reference_velocity i (slow_down l1 i))

  calibration_by_phase :
      (q : Phase) (l : SequencerLogic D) (i : Inputs D) → (Logic.by_phase q l i).p ≡ l.p
  unfolding Logic.by_phase rest
  calibration_by_phase complete l i = ground arith
  calibration_by_phase trajectory l i = follow_keeps l i
  calibration_by_phase settling l i = settle_keeps l i
  calibration_by_phase idle l i = settle_keeps l i
  calibration_by_phase baseline l i = settle_keeps l i
  calibration_by_phase noise l i = settle_keeps l i
  calibration_by_phase compliant l i = settle_keeps l i
  calibration_by_phase hold l i = settle_keeps l i
  calibration_by_phase faulted l i = settle_keeps l i

  calibration_update : (i : Inputs D) (l : SequencerLogic D) → (Logic.update l i).p ≡ l.p
  unfolding Logic.update
  calibration_update i l =
      let c = count_period i l.state in
      ground
        (arith, calibration_by_phase c.phase (record l { state = record c { measured = i } }) i)

  pub calibration-Keeps : Keeps {D = D} calibration_law (λ l. l.p)
  unfolding Logic.activate
  calibration-Keeps = record { takes = λ p i l h. ground arith; keeps = calibration_update }
