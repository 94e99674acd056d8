-- ===== src/ZeroForce.antt =====
-- packages/zfc_zero_force_controller/include/zfc_zero_force_controller/zero_force_logic.hpp: the
-- compliance law, without ROS. Every `return` of `update` copies `state_`, so the model returns
-- the new logic, whose `state` is that copy.
pub mod Safety
pub mod Limits
pub mod Phases
use zero_force_controller.Common.{
  ℕ, Bool, true, false, not, ◌&&◌, ◌||◌, List, [], ◌∷◌, leb, if◌then◌else◌,
}
use zero_force_controller.Common.Int.{ℤ, pos, negsuc, pos_part, eqb_ℤ}
use zero_force_controller.Double.{Double, nought, one, max_double, clamp}
use zero_force_controller.Control.{
  Phase, baseline, noise, compliant, hold, feedback, period, bounds, Inputs, Snapshot, MotionBounds,
  dt, fresh_snapshot, bounds_valid, contains, inputs_finite, count_period, period_valid, fail,
  increment,
}

pub record ZeroForceSettings (D : Type 0) : Type 0 where
  pub limits : MotionBounds D
  pub hold_only : Bool
  pub baseline_duration : D
  pub noise_duration : D
  pub acceleration_per_force : D
  pub damping : D
  pub inertial_force_coefficient : D
  pub noise_multiplier : D
  pub minimum_deadband : D
  pub max_acceleration : D
  pub max_velocity : D
  pub stationary_velocity : D
  pub max_force : D
  pub force_response_sign : ℤ

pub record ZeroForceLogic (D : Type 0) : Type 0 where
  pub p : ZeroForceSettings D
  pub state : Snapshot D
  pub active : Bool
  pub count : ℕ
  pub origin : D
  pub mean : D
  pub noise_scale : D
  pub noise_sum : D

module _ {D : Type 0} ⦃d : Double D⦄ where
  open d use {
    le, lt, add, sub, mul, div, negate, fabs, is_finite, copysign, ceil, sqrt, exp, of_int, to_int,
    lit,
  }

  abbrev all_finite : List D → Bool
  all_finite [] = true
  all_finite (v ∷ vs) = is_finite v && all_finite vs

  abbrev within : D → D → D → Bool
  within v lo hi = le lo v && le v hi

  abbrev positive_to : D → D → Bool
  positive_to v hi = lt nought v && le v hi

  unfoldable pub settings_finite : ZeroForceSettings D → Bool
  settings_finite p = all_finite (
      p.baseline_duration ∷ p.noise_duration ∷ p.acceleration_per_force ∷ p.damping
      ∷ p.inertial_force_coefficient ∷ p.noise_multiplier ∷ p.minimum_deadband ∷ p.max_acceleration
      ∷ p.max_velocity ∷ p.stationary_velocity ∷ p.max_force ∷ [])

  -- `ZeroForceSettings::valid`
  unfoldable pub settings_valid : ZeroForceSettings D → Bool
  unfolding settings_finite
  settings_valid p =
      settings_finite p
      && bounds_valid p.limits
      && within p.baseline_duration dt (lit 60 0)
      && within p.noise_duration dt (lit 60 0)
      && within p.acceleration_per_force nought (lit 100 0)
      && within p.damping nought (lit 1000 0)
      && le (fabs p.inertial_force_coefficient) (lit 1000 0)
      && within p.noise_multiplier nought (lit 20 0)
      && within p.minimum_deadband nought (lit 1000 0)
      && positive_to p.max_acceleration (lit 100 0)
      && positive_to p.max_velocity one
      && positive_to p.stationary_velocity (lit 1 1)
      && positive_to p.max_force (lit 1_000_000 0)
      && (eqb_ℤ p.force_response_sign (negsuc 0) || eqb_ℤ p.force_response_sign (pos 1))

  unfoldable pub reset : ZeroForceLogic D → ZeroForceLogic D
  reset l = record l {
    state = fresh_snapshot;
    active = false;
    count = 0;
    origin = nought;
    mean = nought;
    noise_scale = nought;
    noise_sum = nought;
  }

  -- the tests of `activate`
  unfoldable pub accepts : ZeroForceSettings D → Inputs D → Bool
  accepts p i =
      settings_valid p
      && inputs_finite i
      && not (lt p.stationary_velocity (fabs i.velocity))
      && not (lt p.max_force (fabs i.force))
      && contains p.limits i.position i.position

  unfoldable pub activate :
      ZeroForceLogic D → ZeroForceSettings D → Inputs D → Bool × ZeroForceLogic D
  unfolding reset accepts
  activate l p i =
      if accepts p i
      then (
        true,
        record (reset l) {
          p = p;
          origin = i.position;
          state = record fresh_snapshot {
            measured = i;
            reference_position = i.position;
            phase = if p.hold_only then hold else baseline;
          };
          active = true;
        },
      )
      else (false, reset l)

  -- the cycles of a capture, `static_cast<std::uint64_t>(std::ceil(duration / dt))`
  abbrev pub cycles : D → ℕ
  cycles duration = pos_part (to_int (ceil (div duration dt)))

  abbrev real : ℕ → D
  real n = of_int (pos n)

  -- the branch of `Phase::baseline`, with the measured position held
  unfoldable pub measure_baseline : ZeroForceLogic D → Inputs D → ZeroForceLogic D
  measure_baseline l i =
      let n = increment l.count in
      let m = add l.mean (div (sub i.force l.mean) (real n)) in
      let s = record l.state { baseline_force = m } in
      if leb (cycles l.p.baseline_duration) n
      then record l { mean = m; count = 0; state = record s { phase = noise } }
      else record l { mean = m; count = n; state = s }

  -- the scaled sum of squares of the deviations
  unfoldable pub accumulate_noise : ZeroForceLogic D → D → ZeroForceLogic D
  accumulate_noise l deviation =
      if lt nought deviation
      then (if lt l.noise_scale deviation
          then (let ratio = div l.noise_scale deviation in
              record l {
                noise_sum = add one (mul (mul l.noise_sum ratio) ratio);
                noise_scale = deviation;
              })
          else (let ratio = div deviation l.noise_scale in
              record l { noise_sum = add l.noise_sum (mul ratio ratio) }))
      else l

  -- the branch of `Phase::noise`
  unfoldable pub measure_noise : ZeroForceLogic D → Inputs D → ZeroForceLogic D
  measure_noise l i =
      let a = accumulate_noise l (fabs (sub i.force l.state.baseline_force)) in
      let n = increment a.count in
      let s = record a.state { noise_rms = mul a.noise_scale (sqrt (div a.noise_sum (real n))) } in
      if leb (cycles a.p.noise_duration) n
      then record a { count = n; state = record s { phase = compliant; progress = one } }
      else record a { count = n; state = s }

  abbrev pub residual : ZeroForceLogic D → Inputs D → D
  residual l i =
      sub (sub i.force l.state.baseline_force)
        (mul l.p.inertial_force_coefficient l.state.reference_acceleration)

  -- the residual force outside the dead band, with its sign
  abbrev pub error : ZeroForceLogic D → D → D
  error l r =
      let threshold =
        max_double l.p.minimum_deadband (mul l.p.noise_multiplier l.state.noise_rms) in
      copysign (max_double nought (sub (fabs r) threshold)) r

  -- the commanded velocity
  unfoldable pub next_velocity : ZeroForceLogic D → D → D
  next_velocity l r =
      let a = l.p.max_acceleration in
      let old = l.state.reference_velocity in
      let response =
        clamp (mul (mul (of_int l.p.force_response_sign) l.p.acceleration_per_force) (error l r))
          (negate a) a in
      let damped = mul (add old (mul response dt)) (exp (mul (negate l.p.damping) dt)) in
      clamp (clamp damped (sub old (mul a dt)) (add old (mul a dt))) (negate l.p.max_velocity)
        l.p.max_velocity

  -- the branch of `Phase::compliant`, and of every phase that has none of its own
  unfoldable pub comply : ZeroForceLogic D → Inputs D → ZeroForceLogic D
  comply l i =
      let r = residual l i in
      let s = record l.state { residual_force = r } in
      let v = next_velocity l r in
      let command = add s.reference_position (mul v dt) in
      if not (is_finite r) || not (is_finite command) || not (contains l.p.limits command l.origin)
      then record l { state = fail s i bounds }
      else record l {
        state = record s {
          reference_acceleration = div (sub v s.reference_velocity) dt;
          reference_velocity = v;
          reference_position = command;
        };
      }

  abbrev pub holding : ZeroForceLogic D → Inputs D → ZeroForceLogic D
  holding l i = record l { state = record l.state { reference_position = i.position } }

  -- A capture needs the carriage to be still.
  abbrev pub capturing :
      (ZeroForceLogic D → Inputs D → ZeroForceLogic D)
      → ZeroForceLogic D
      → Inputs D
      → ZeroForceLogic D
  capturing measure l i =
      if lt l.p.stationary_velocity (fabs i.velocity)
      then record l { state = fail l.state i feedback }
      else measure (holding l i) i

  unfoldable pub by_phase : Phase → ZeroForceLogic D → Inputs D → ZeroForceLogic D
  by_phase hold l i = holding l i
  by_phase baseline l i = capturing measure_baseline l i
  by_phase noise l i = capturing measure_noise l i
  by_phase _ l i = comply l i

  unfoldable pub update : ZeroForceLogic D → Inputs D → ZeroForceLogic D
  update l i =
      if not l.active || not l.state.valid
      then record l { state = fail l.state i l.state.fault }
      else if not (inputs_finite i) || lt l.p.max_force (fabs i.force)
      then record l { state = fail l.state i feedback }
      else (let counted = count_period i l.state in
          if not (period_valid i l.state)
          then record l { state = fail counted i period }
          else if not (contains l.p.limits i.position l.origin)
          then record l { state = fail counted i bounds }
          else by_phase counted.phase (record l { state = record counted { measured = i } }) i)

  unfoldable pub run : ZeroForceLogic D → List (Inputs D) → ZeroForceLogic D
  run l [] = l
  run l (i ∷ is) = run (update l i) is
