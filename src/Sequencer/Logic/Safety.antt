-- ===== src/Sequencer/Logic/Safety.antt =====
-- What the reference of a calibration satisfies while it is valid.
use zero_force_controller.Common.{◌≡◌, refl, sym, ◌∙◌, true, false, List, [], ◌∷◌, arith}
use zero_force_controller.Double.{Double}
use zero_force_controller.Double.Laws.{IsIeee}
use zero_force_controller.Control.{
  Phase, trajectory, complete, feedback, period, bounds, Fault, settling_timeout, Inputs, Snapshot,
  contains, fail, count_period, increment,
}
use zero_force_controller.Sequencer
use zero_force_controller.Sequencer.Logic.{
  CalibrationSettings, SequencerLogic, activate, reset, update, run, by_phase, rest, follow, settle,
  check_reference, followed, slow_down,
}

module _ {D : Type 0} ⦃d : Double D⦄ where
  open d use {is_finite}

  -- A reference that may be sent: inside the motion bounds, with finite derivatives.
  pub record IsTracked (l : SequencerLogic D) : Type 0 where
    pub position : contains l.p.limits l.state.reference_position l.origin ≡ true
    pub velocity : is_finite l.state.reference_velocity ≡ true
    pub acceleration : is_finite l.state.reference_acceleration ≡ true

  -- A valid reference may be sent, and one that is not valid is not finite.
  pub record IsGuarded (l : SequencerLogic D) : Type 0 where
    pub tracked : l.state.valid ≡ true → IsTracked l
    pub stopped : l.state.valid ≡ false → is_finite l.state.reference_position ≡ false

  module _ (ieee : IsIeee D) where
    fail-IsGuarded :
        (l : SequencerLogic D) (s : Snapshot D) (i : Inputs D) (reason : Fault)
        → IsGuarded (record l { state = fail s i reason })
    unfolding fail
    fail-IsGuarded l s i reason = record { tracked = λ v. cc; stopped = λ _. ieee.nan_not_finite }

    check-IsGuarded :
        (v : D) (i : Inputs D) (l : SequencerLogic D)
        → l.state.valid ≡ true
        → IsGuarded (check_reference v i l)
    unfolding check_reference fail
    check-IsGuarded v i l valid = ground (arith, ieee.nan_not_finite)

    follow-IsGuarded :
        (l : SequencerLogic D) (i : Inputs D) → l.state.valid ≡ true → IsGuarded (follow l i)
    unfolding follow
    follow-IsGuarded l i valid =
        let (accepted, q) = Sequencer.update i.period_ns l.sequencer in
        ground (
          arith,
          fail-IsGuarded (record l { sequencer = q }) l.state i period,
          check-IsGuarded l.state.reference_velocity i (followed l q) valid,
        )

    slow_down_valid :
        (l : SequencerLogic D) (i : Inputs D)
        → l.state.valid ≡ true
        → (slow_down l i).state.valid ≡ true
    slow_down_valid l i valid = ground arith

    settle-IsGuarded :
        (l : SequencerLogic D) (i : Inputs D) → l.state.valid ≡ true → IsGuarded (settle l i)
    unfolding settle
    settle-IsGuarded l i valid =
        let l1 = record l { settling_cycles = increment l.settling_cycles } in
        ground (
          arith,
          fail-IsGuarded l1 l.state i settling_timeout,
          check-IsGuarded l.state.reference_velocity i (slow_down l1 i)
              (slow_down_valid l1 i valid),
        )

    rest-IsGuarded : (l : SequencerLogic D) (i : Inputs D) → IsGuarded l → IsGuarded (rest l i)
    unfolding rest
    rest-IsGuarded l i g = ground (arith, fail-IsGuarded l l.state i feedback, g.tracked, g.stopped)

    by_phase-IsGuarded :
        (phase : Phase) (l : SequencerLogic D) (i : Inputs D)
        → l.state.valid ≡ true
        → (phase ≡ complete → IsGuarded l)
        → IsGuarded (by_phase phase l i)
    unfolding by_phase
    by_phase-IsGuarded complete l i valid g = rest-IsGuarded l i (g refl)
    by_phase-IsGuarded trajectory l i valid g = follow-IsGuarded l i valid
    by_phase-IsGuarded p l i valid g = settle-IsGuarded l i valid

    phase-count_period : (i : Inputs D) (s : Snapshot D) → (count_period i s).phase ≡ s.phase
    unfolding count_period
    phase-count_period i s = ground arith

    valid-count_period : (i : Inputs D) (s : Snapshot D) → (count_period i s).valid ≡ s.valid
    unfolding count_period
    valid-count_period i s = ground arith

    observed-IsGuarded :
        (l : SequencerLogic D) (i : Inputs D)
        → IsGuarded l
        → IsGuarded (record l { state = record (count_period i l.state) { measured = i } })
    unfolding count_period
    observed-IsGuarded l i g = ground (arith, g.tracked, g.stopped)

    pub update-IsGuarded :
        (l : SequencerLogic D) (i : Inputs D)
        → (l.state.phase ≡ complete → IsGuarded l)
        → IsGuarded (update l i)
    unfolding update
    update-IsGuarded l i g =
        let c = count_period i l.state in
        let l1 = record l { state = record c { measured = i } } in
        let same = phase-count_period i l.state in
        let g1 : c.phase ≡ complete → IsGuarded l1 =
          λ q. observed-IsGuarded l i (g (sym same ∙ q)) in
        ground (
          arith,
          valid-count_period i l.state,
          fail-IsGuarded l l.state i l.state.fault,
          fail-IsGuarded l l.state i feedback,
          fail-IsGuarded l c i period,
          fail-IsGuarded l c i bounds,
          λ (v : c.valid ≡ true). by_phase-IsGuarded c.phase l1 i v g1,
        )

    run-IsGuarded :
        (l : SequencerLogic D) (is : List (Inputs D)) → IsGuarded l → IsGuarded (run l is)
    unfolding run
    run-IsGuarded l [] g = g
    run-IsGuarded l (i ∷ is) g = run-IsGuarded (update l i) is (update-IsGuarded l i λ _. g)

    pub activate-phase :
        (p : CalibrationSettings D) (i : Inputs D) (l : SequencerLogic D)
        → (activate p i l).1.state.phase ≡ complete
        → IsGuarded (activate p i l).1
    unfolding activate reset
    activate-phase p i l h = ground arith

    -- After `activate` and at least one input: while the state is valid, the reference position is
    -- finite and inside the motion bounds round the activation point, and the reference velocity
    -- and acceleration are finite; once it is not valid, the reference position is not finite.
    pub activated-IsGuarded :
        (p : CalibrationSettings D) (start : Inputs D) (l : SequencerLogic D) (i : Inputs D)
        (is : List (Inputs D))
        → IsGuarded (run (update (activate p start l).1 i) is)
    activated-IsGuarded p start l i is =
        run-IsGuarded (update (activate p start l).1 i) is
          (update-IsGuarded (activate p start l).1 i (activate-phase p start l))
