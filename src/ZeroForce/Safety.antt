-- ===== src/ZeroForce/Safety.antt =====
-- ZeroForceLogic: what the commanded reference satisfies after every history of inputs.
use zero_force_controller.Common.{◌≡◌, true, false, List, [], ◌∷◌, arith}
use zero_force_controller.Double.{Double, ◌≼◌, nought}
use zero_force_controller.Double.Laws.{IsIeee, clamp_bounds}
use zero_force_controller.Control.{
  Phase, baseline, noise, hold, Fault, Inputs, Snapshot, dt, contains, count_period, fail, feedback,
  period, bounds,
}
use zero_force_controller.ZeroForce.{
  ZeroForceSettings, ZeroForceLogic, settings_valid, activate, holding, capturing, by_phase, comply,
  update, run, next_velocity, measure_baseline, measure_noise, accumulate_noise, residual,
}

module _ {D : Type 0} ⦃d : Double D⦄ where
  open d use {add, sub, mul, negate, is_finite}

  -- A reference that may be sent: inside the motion bounds and below the speed limit.
  pub record IsSendable (l : ZeroForceLogic D) : Type 0 where
    pub position : contains l.p.limits l.state.reference_position l.origin ≡ true
    pub slow_down : negate l.p.max_velocity ≼ l.state.reference_velocity
    pub slow_up : l.state.reference_velocity ≼ l.p.max_velocity

  pub record IsSafe (l : ZeroForceLogic D) : Type 0 where
    pub settled : l.active ≡ true → settings_valid l.p ≡ true
    pub sendable : l.active ≡ true → l.state.valid ≡ true → IsSendable l
    pub stopped : l.state.valid ≡ false → is_finite l.state.reference_position ≡ false

  -- the state that `update` hands to the branch of the phase
  abbrev pub observed : ZeroForceLogic D → Inputs D → ZeroForceLogic D
  observed l i = record l { state = record (count_period i l.state) { measured = i } }

  module _ (ieee : IsIeee D) where
    open ieee use {
      finite_add, finite_mul, finite_refl, negate_le_nought, le_of_lt, le_trans, nan_not_finite,
      le-add_nonneg, sub_nonneg-le, mul_nonneg, lit_nonneg, lit_finite, finite_between,
      negate_finite,
    }

    pub speed_limits :
        (p : ZeroForceSettings D)
        → settings_valid p ≡ true
        → (negate p.max_velocity ≼ nought) × (nought ≼ p.max_velocity)
    unfolding settings_valid
    speed_limits p h =
        ground (arith, negate_le_nought p.max_velocity, le_of_lt nought p.max_velocity)

    speed_range :
        (p : ZeroForceSettings D) → settings_valid p ≡ true → negate p.max_velocity ≼ p.max_velocity
    speed_range p h = let (a, b) = speed_limits p h in le_trans _ _ _ a b

    -- A velocity that moves the reference to a finite position is within the limit.
    next_velocity_bounds :
        (l : ZeroForceLogic D) (r : D)
        → settings_valid l.p ≡ true
        → is_finite (mul (next_velocity l r) dt) ≡ true
        → (negate l.p.max_velocity ≼ next_velocity l r) × (next_velocity l r ≼ l.p.max_velocity)
    unfolding next_velocity
    next_velocity_bounds l r h f =
        clamp_bounds ieee _ _ _ (speed_range l.p h) (finite_refl _ (finite_mul _ _ f).0)

    fail-IsSafe :
        (l : ZeroForceLogic D) (s : Snapshot D) (i : Inputs D) (reason : Fault)
        → (l.active ≡ true → settings_valid l.p ≡ true)
        → IsSafe (record l { state = fail s i reason })
    unfolding fail
    fail-IsSafe l s i reason h = record {
      settled = h;
      sendable = λ a v. cc;
      stopped = λ _. nan_not_finite;
    }

    comply-IsSafe :
        (l : ZeroForceLogic D) (i : Inputs D)
        → l.state.valid ≡ true
        → l.active ≡ true
        → IsSafe l
        → IsSafe (comply l i)
    unfolding comply fail
    comply-IsSafe l i v a s =
        let r = residual l i in
        ground (
          arith,
          s.settled a,
          s.sendable a v,
          nan_not_finite,
          finite_add l.state.reference_position (mul (next_velocity l r) dt),
          next_velocity_bounds l r,
        )

    measure_baseline-IsSafe :
        (l : ZeroForceLogic D) (i : Inputs D) → IsSafe l → IsSafe (measure_baseline l i)
    unfolding measure_baseline
    measure_baseline-IsSafe l i s = ground (arith, s.settled, s.sendable, s.stopped)

    measure_noise-IsSafe :
        (l : ZeroForceLogic D) (i : Inputs D) → IsSafe l → IsSafe (measure_noise l i)
    unfolding measure_noise accumulate_noise
    measure_noise-IsSafe l i s = ground (arith, s.settled, s.sendable, s.stopped)

    holding-IsSafe :
        (l : ZeroForceLogic D) (i : Inputs D)
        → contains l.p.limits i.position l.origin ≡ true
        → l.state.valid ≡ true
        → IsSafe l
        → IsSafe (holding l i)
    holding-IsSafe l i c v s = ground (arith, s.settled, s.sendable)

    capturing-IsSafe :
        (measure : ZeroForceLogic D → Inputs D → ZeroForceLogic D)
        → ((l : ZeroForceLogic D) (i : Inputs D) → IsSafe l → IsSafe (measure l i))
        → (l : ZeroForceLogic D) (i : Inputs D) → IsSafe l
        → IsSafe (holding l i)
        → IsSafe (capturing measure l i)
    capturing-IsSafe measure keep l i s h =
        ground (arith, fail-IsSafe l l.state i feedback s.settled, keep (holding l i) i h)

    by_phase-IsSafe :
        (phase : Phase) (l : ZeroForceLogic D) (i : Inputs D)
        → contains l.p.limits i.position l.origin ≡ true
        → l.state.valid ≡ true
        → l.active ≡ true
        → IsSafe l
        → IsSafe (by_phase phase l i)
    unfolding by_phase
    by_phase-IsSafe hold l i c v a s = holding-IsSafe l i c v s
    by_phase-IsSafe baseline l i c v a s =
        capturing-IsSafe measure_baseline measure_baseline-IsSafe l i s (holding-IsSafe l i c v s)
    by_phase-IsSafe noise l i c v a s =
        capturing-IsSafe measure_noise measure_noise-IsSafe l i s (holding-IsSafe l i c v s)
    by_phase-IsSafe _ l i c v a s = comply-IsSafe l i v a s

    pub observed-IsSafe : (l : ZeroForceLogic D) (i : Inputs D) → IsSafe l → IsSafe (observed l i)
    unfolding count_period
    observed-IsSafe l i s = ground (arith, s.settled, s.sendable, s.stopped)

    valid-count_period : (i : Inputs D) (s : Snapshot D) → (count_period i s).valid ≡ s.valid
    unfolding count_period
    valid-count_period i s = ground arith

    -- One cycle keeps the reference safe.
    pub update-IsSafe : (l : ZeroForceLogic D) (i : Inputs D) → IsSafe l → IsSafe (update l i)
    unfolding update
    update-IsSafe l i s = ground (
      arith,
      fail-IsSafe l l.state i l.state.fault s.settled,
      fail-IsSafe l l.state i feedback s.settled,
      fail-IsSafe l (count_period i l.state) i period s.settled,
      fail-IsSafe l (count_period i l.state) i bounds s.settled,
      valid-count_period i l.state,
      by_phase-IsSafe (count_period i l.state).phase (observed l i) i,
      observed-IsSafe l i s,
    )

    pub activate-IsSafe :
        (l : ZeroForceLogic D) (p : ZeroForceSettings D) (i : Inputs D) → IsSafe (activate l p i).1
    unfolding activate
    activate-IsSafe l p i = ground (arith, speed_limits p)

    run_keeps : (l : ZeroForceLogic D) (is : List (Inputs D)) → IsSafe l → IsSafe (run l is)
    unfolding run
    run_keeps l [] s = s
    run_keeps l (i ∷ is) s = run_keeps (update l i) is (update-IsSafe l i s)

    -- After `activate` and any inputs: while the state is valid, the reference position is finite
    -- and inside the motion bounds round the activation point, and the reference speed is within
    -- `max_velocity_mps`; once it is not valid, the reference is not finite.
    pub run-IsSafe :
        (l : ZeroForceLogic D) (p : ZeroForceSettings D) (i : Inputs D) (is : List (Inputs D))
        → IsSafe (run (activate l p i).1 is)
    run-IsSafe l p i is = run_keeps (activate l p i).1 is (activate-IsSafe l p i)
