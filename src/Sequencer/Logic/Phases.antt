-- ===== src/Sequencer/Logic/Phases.antt =====
-- The calibration as a state machine: the order of its phases.
use zero_force_controller.Common.{◌≡◌, ◌⊎◌, true, List, [], ◌∷◌, arith}
use zero_force_controller.Double.{Double}
use zero_force_controller.Control.{
  Phase, faulted, trajectory, settling, complete, Inputs, Snapshot, fail, count_period,
}
use zero_force_controller.Sequencer.Logic.{
  CalibrationSettings, SequencerLogic, activate, run, update, by_phase, rest, follow, settle,
  check_reference,
}

-- the steps that a cycle of the calibration may make
pub data Continues (p q : Phase) : Type 0 where
  keeps : q ≡ p → Continues p q
  breaks : q ≡ faulted → Continues p q
  trajectory_done : p ≡ trajectory → q ≡ settling → Continues p q
  settling_done : p ≡ settling → q ≡ complete → Continues p q

-- the phases of a calibration that has no fault
abbrev pub InCourse : Phase → Type 0
InCourse p = (p ≡ trajectory) ⊎ (p ≡ settling) ⊎ (p ≡ complete)

module _ {D : Type 0} ⦃d : Double D⦄ where
  phase-count_period : (i : Inputs D) (s : Snapshot D) → (count_period i s).phase ≡ s.phase
  unfolding count_period
  phase-count_period i s = ground arith

  by_phase-Continues :
      (p : Phase) (l : SequencerLogic D) (i : Inputs D)
      → l.state.phase ≡ p
      → InCourse p
      → Continues p (by_phase p l i).state.phase
  unfolding by_phase rest follow settle check_reference fail
  by_phase-Continues complete l i h c = grind (arith, keeps, breaks)
  by_phase-Continues trajectory l i h c = grind (arith, keeps, breaks, trajectory_done)
  by_phase-Continues settling l i h c = grind (arith, keeps, breaks, settling_done)
  by_phase-Continues p l i h c = ground arith

  by_phase-InCourse :
      (p : Phase) (l : SequencerLogic D) (i : Inputs D)
      → l.state.phase ≡ p
      → InCourse p
      → (by_phase p l i).state.valid ≡ true
      → InCourse (by_phase p l i).state.phase
  unfolding by_phase rest follow settle check_reference fail
  by_phase-InCourse complete l i h c v = ground arith
  by_phase-InCourse trajectory l i h c v = ground arith
  by_phase-InCourse settling l i h c v = ground arith
  by_phase-InCourse p l i h c v = ground arith

  update-Continues :
      (l : SequencerLogic D) (i : Inputs D)
      → (l.state.valid ≡ true → InCourse l.state.phase)
      → Continues l.state.phase (update l i).state.phase
        × ((update l i).state.valid ≡ true → InCourse (update l i).state.phase)
  unfolding update fail
  update-Continues l i c =
      let p = l.state.phase in
      let l1 = record l { state = record (count_period i l.state) { measured = i } } in
      let same = phase-count_period i l.state in
      grind (
        arith,
        breaks,
        same,
        λ (v : l.state.valid ≡ true). by_phase-Continues p l1 i same (c v),
        λ (v : l.state.valid ≡ true). by_phase-InCourse p l1 i same (c v),
      )

  activate-InCourse :
      (p : CalibrationSettings D) (start : Inputs D) (l : SequencerLogic D)
      → (activate p start l).0 ≡ true
      → InCourse (activate p start l).1.state.phase
  unfolding activate
  activate-InCourse p start l h = ground arith

  run-InCourse :
      (l : SequencerLogic D) (is : List (Inputs D))
      → (l.state.valid ≡ true → InCourse l.state.phase)
      → (run l is).state.valid ≡ true
      → InCourse (run l is).state.phase
  unfolding run
  run-InCourse l [] c v = c v
  run-InCourse l (i ∷ is) c v = run-InCourse (update l i) is (update-Continues l i c).1 v

  -- After an activation that is accepted and any inputs: while the calibration is valid, it is in its
  -- trajectory, settling or complete. The next cycle keeps the phase, faults, ends the trajectory in
  -- settling, or ends the settling in completion; no other change of phase happens.
  pub activated-Continues :
      (p : CalibrationSettings D) (start : Inputs D) (l : SequencerLogic D) (is : List (Inputs D))
      (i : Inputs D)
      → (activate p start l).0 ≡ true
      → let m = run (activate p start l).1 is in
        (m.state.valid ≡ true → InCourse m.state.phase)
        × Continues m.state.phase (update m i).state.phase
  activated-Continues p start l is i h =
      let c = run-InCourse (activate p start l).1 is (λ v. activate-InCourse p start l h) in
      (c, (update-Continues (run (activate p start l).1 is) i c).0)
