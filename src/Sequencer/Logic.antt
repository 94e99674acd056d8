-- ===== src/Sequencer/Logic.antt =====
-- packages/zfc_calibration_controller/include/zfc_calibration_controller/
-- calibration_sequencer_logic.hpp: the trajectory of the sequencer, then a settling to rest, under
-- the common checks of the inputs. What `update` returns is the `state` of the new logic.
pub mod Safety
pub mod Phases
use zero_force_controller.Common.{
  ℕ, Bool, true, false, not, ◌&&◌, ◌||◌, List, [], ◌∷◌, if◌then◌else◌,
}
use zero_force_controller.Common.Int.{pos, leb_ℤ}
use zero_force_controller.Double.{Double, nought, one, max_double}
use zero_force_controller.Control.{
  Phase, trajectory, settling, complete, feedback, period, bounds, settling_timeout, Inputs,
  Snapshot, MotionBounds, dt, fresh_snapshot, bounds_valid, contains, inputs_finite, count_period,
  period_valid, fail, increment,
}
use zero_force_controller.Sequencer
use zero_force_controller.Sequencer.{
  CalibrationParameters, CalibrationSequencer, parameters_valid, configure, progress,
}

pub record CalibrationSettings (D : Type 0) : Type 0 where
  pub trajectory : CalibrationParameters D
  pub limits : MotionBounds D
  pub settling_acceleration : D
  pub settling_timeout : D
  pub stationary_velocity : D
  pub tracking_tolerance : D
  pub stationary_duration : D

pub record SequencerLogic (D : Type 0) : Type 0 where
  pub p : CalibrationSettings D
  pub sequencer : CalibrationSequencer D
  pub state : Snapshot D
  pub active : Bool
  pub origin : D
  pub settling_cycles : ℕ
  pub stationary_cycles : ℕ

module _ {D : Type 0} ⦃d : Double D⦄ where
  open d use {le, lt, eq, add, sub, mul, div, fabs, is_finite, copysign, of_int, lit}

  abbrev finite_to : D → D → Bool
  finite_to v high = is_finite v && lt nought v && le v high

  -- `CalibrationSettings::valid`
  unfoldable pub settings_valid : CalibrationSettings D → Bool
  settings_valid p =
      parameters_valid p.trajectory
      && bounds_valid p.limits
      && finite_to p.settling_acceleration (lit 100 0)
      && finite_to p.settling_timeout (lit 60 0)
      && finite_to p.stationary_velocity (lit 1 1)
      && finite_to p.tracking_tolerance (lit 1 2)
      && is_finite p.stationary_duration
      && le dt p.stationary_duration
      && le p.stationary_duration (lit 10 0)
      && le p.trajectory.center_zone_half_width (lit 1 1)
      && le (fabs p.trajectory.base_velocity) one
      && le p.trajectory.jerk (lit 1_000_000 0)
      && le p.trajectory.max_acceleration (lit 100 0)
      && leb_ℤ p.trajectory.cycles_per_increase (pos 1000)

  unfoldable pub required_excursion : CalibrationSettings D → D
  required_excursion p =
      let t = p.trajectory in
      let two = of_int (pos 2) in
      let a = t.max_acceleration in
      let peak = add (add (fabs t.base_velocity) (div (mul a a) (mul two t.jerk))) (mul a dt) in
      let ramp_time = div (mul two a) t.jerk in
      add
        (add
          (add (add t.center_zone_half_width (mul peak (add ramp_time (mul (of_int (pos 3)) dt))))
            (div (mul peak peak) (mul two t.initial_acceleration)))
          (div (mul peak peak) (mul two p.settling_acceleration)))
        p.tracking_tolerance

  unfoldable pub reset : SequencerLogic D → SequencerLogic D
  reset l = record l {
    sequencer = Sequencer.reset l.sequencer;
    state = fresh_snapshot;
    active = false;
    origin = nought;
    settling_cycles = 0;
    stationary_cycles = 0;
  }

  -- the tests of `activate` on the settings and the inputs
  unfoldable pub accepts : CalibrationSettings D → Inputs D → Bool
  accepts p i =
      settings_valid p
      && inputs_finite i
      && not (lt p.stationary_velocity (fabs i.velocity))
      && not (lt p.limits.excursion_limit (required_excursion p))
      && contains p.limits (sub i.position (required_excursion p)) i.position
      && contains p.limits (add i.position (required_excursion p)) i.position

  -- the sequencer, configured and then activated at the position
  unfoldable pub started :
      CalibrationSettings D → Inputs D → CalibrationSequencer D → Bool × CalibrationSequencer D
  started p i s =
      let (configured, s1) = configure p.trajectory s in
      if configured then Sequencer.activate i.position s1 else (false, s1)

  unfoldable pub activate :
      CalibrationSettings D → Inputs D → SequencerLogic D → Bool × SequencerLogic D
  activate p i l =
      let l1 = reset l in
      if not (accepts p i)
      then (false, l1)
      else (let (ready, s) = started p i l1.sequencer in
          if not ready then (false, record l1 { sequencer = s }) else (
            true,
            record l1 {
              sequencer = s;
              p = p;
              origin = i.position;
              active = true;
              state = record fresh_snapshot {
                measured = i;
                phase = trajectory;
                reference_position = i.position;
              };
            },
          ))

  abbrev real : ℕ → D
  real n = of_int (pos n)

  -- the carriage is at rest at the reference
  abbrev at_rest : SequencerLogic D → Inputs D → D → Bool
  at_rest l i reference =
      le (fabs i.velocity) l.p.stationary_velocity
      && le (fabs (sub i.position reference)) l.p.tracking_tolerance

  -- the branch of `Phase::complete`
  unfoldable pub rest : SequencerLogic D → Inputs D → SequencerLogic D
  rest l i =
      if lt l.p.stationary_velocity (fabs i.velocity)
        || lt l.p.tracking_tolerance (fabs (sub i.position l.state.reference_position))
      then record l { state = fail l.state i feedback }
      else l

  -- the end of `update`, with the velocity of the cycle before
  unfoldable pub check_reference : D → Inputs D → SequencerLogic D → SequencerLogic D
  check_reference previous_velocity i l =
      let a = div (sub l.state.reference_velocity previous_velocity) dt in
      let s = record l.state { reference_acceleration = a } in
      if not (is_finite s.reference_velocity)
        || not (is_finite a)
        || not (contains l.p.limits s.reference_position l.origin)
      then record l { state = fail s i bounds }
      else record l { state = s }

  -- the reference that the sequencer gives, with the acceleration of the center zone's clipping
  abbrev pub followed : SequencerLogic D → CalibrationSequencer D → SequencerLogic D
  followed l q = record l {
    sequencer = q;
    state = record l.state {
      reference_position = q.commanded_position;
      reference_velocity = div (sub q.commanded_position l.state.reference_position) dt;
      progress = if q.finished then lit 9 1 else mul (progress q) (lit 9 1);
      phase = if q.finished then settling else l.state.phase;
    };
  }

  -- the branch of `Phase::trajectory`
  unfoldable pub follow : SequencerLogic D → Inputs D → SequencerLogic D
  follow l i =
      let (accepted, q) = Sequencer.update i.period_ns l.sequencer in
      if not accepted
      then record l { sequencer = q; state = fail l.state i period }
      else check_reference l.state.reference_velocity i (followed l q)

  -- the velocity of the next settling cycle
  abbrev pub slowed : SequencerLogic D → D
  slowed l =
      let v = l.state.reference_velocity in
      copysign (max_double nought (sub (fabs v) (mul l.p.settling_acceleration dt))) v

  -- the counters of the settling
  abbrev pub settled : SequencerLogic D → Inputs D → D → ℕ
  settled l i reference =
      if eq (slowed l) nought && at_rest l i reference then increment l.stationary_cycles else 0

  -- one cycle of slowing down
  abbrev pub slow_down : SequencerLogic D → Inputs D → SequencerLogic D
  slow_down l i =
      let v = slowed l in
      let reference = add l.state.reference_position (mul v dt) in
      let k = settled l i reference in
      let s = record l.state { reference_velocity = v; reference_position = reference } in
      record l {
        stationary_cycles = k;
        state =
            if le l.p.stationary_duration (mul (real k) dt)
            then record s { phase = complete; progress = one }
            else s;
      }

  -- the branch of `Phase::settling`
  unfoldable pub settle : SequencerLogic D → Inputs D → SequencerLogic D
  settle l i =
      let l1 = record l { settling_cycles = increment l.settling_cycles } in
      if lt l1.p.settling_timeout (mul (real l1.settling_cycles) dt)
      then record l1 { state = fail l1.state i settling_timeout }
      else check_reference l1.state.reference_velocity i (slow_down l1 i)

  unfoldable pub by_phase : Phase → SequencerLogic D → Inputs D → SequencerLogic D
  by_phase complete l i = rest l i
  by_phase trajectory l i = follow l i
  by_phase _ l i = settle l i

  unfoldable pub update : SequencerLogic D → Inputs D → SequencerLogic D
  update l i =
      if not l.active || not l.state.valid
      then record l { state = fail l.state i l.state.fault }
      else if not (inputs_finite i)
      then record l { state = fail l.state i feedback }
      else (let counted = count_period i l.state in
          if not (period_valid i l.state)
          then record l { state = fail counted i period }
          else if not (contains l.p.limits i.position l.origin)
          then record l { state = fail counted i bounds }
          else by_phase counted.phase (record l { state = record counted { measured = i } }) i)

  unfoldable pub run : SequencerLogic D → List (Inputs D) → SequencerLogic D
  run l [] = l
  run l (i ∷ is) = run (update l i) is
