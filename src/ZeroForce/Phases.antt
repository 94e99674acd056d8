-- ===== src/ZeroForce/Phases.antt =====
-- ZeroForceLogic as a state machine: the order of its phases, the latch of a fault, and the
-- length of the two captures.
use zero_force_controller.Common.{
  ℕ, ◌+◌, ◌<◌, ◌≤◌, ◌^◌, ◌≡◌, refl, true, false, List, [], ◌∷◌, ◌∙◌, arith, length,
}
use zero_force_controller.Double.{Double}
use zero_force_controller.Control.{
  Phase, baseline, noise, compliant, hold, idle, faulted, Inputs, Snapshot, count_period, fail,
}
use zero_force_controller.ZeroForce.Safety.{observed}
use zero_force_controller.ZeroForce.{
  ZeroForceSettings, ZeroForceLogic, activate, by_phase, comply, update, run, measure_baseline,
  measure_noise, accumulate_noise, cycles, holding, reset,
}

-- the steps that a cycle may make
pub data Follows (p q : Phase) : Type 0 where
  stay : q ≡ p → Follows p q
  stops : q ≡ faulted → Follows p q
  baseline_done : p ≡ baseline → q ≡ noise → Follows p q
  noise_done : p ≡ noise → q ≡ compliant → Follows p q

module _ {D : Type 0} ⦃d : Double D⦄ where
  open d use {fabs, sub}

  phase-measure_baseline :
      (l : ZeroForceLogic D) (i : Inputs D)
      → l.state.phase ≡ baseline
      → Follows baseline (measure_baseline l i).state.phase
  unfolding measure_baseline
  phase-measure_baseline l i h = grind (arith, stay, baseline_done)

  phase-measure_noise :
      (l : ZeroForceLogic D) (i : Inputs D)
      → l.state.phase ≡ noise
      → Follows noise (measure_noise l i).state.phase
  unfolding measure_noise accumulate_noise
  phase-measure_noise l i h = grind (arith, stay, noise_done)

  phase-comply :
      (l : ZeroForceLogic D) (i : Inputs D) → Follows l.state.phase (comply l i).state.phase
  unfolding comply fail
  phase-comply l i = grind (arith, stay, stops)

  by_phase-Follows :
      (p : Phase) (l : ZeroForceLogic D) (i : Inputs D)
      → l.state.phase ≡ p
      → Follows p (by_phase p l i).state.phase
  unfolding by_phase fail
  by_phase-Follows hold l i h = stay h
  by_phase-Follows baseline l i h = grind (arith, stops, phase-measure_baseline)
  by_phase-Follows noise l i h = grind (arith, stops, phase-measure_noise)
  by_phase-Follows idle l i h = rw (← h) (phase-comply l i)
  by_phase-Follows _ l i h = rw (← h) (phase-comply l i)

  phase-count_period : (i : Inputs D) (s : Snapshot D) → (count_period i s).phase ≡ s.phase
  unfolding count_period
  phase-count_period i s = ground arith

  -- A cycle keeps the phase, faults, ends the baseline capture, or ends the noise capture; no
  -- other change of phase happens.
  pub update-Follows :
      (l : ZeroForceLogic D) (i : Inputs D) → Follows l.state.phase (update l i).state.phase
  unfolding update fail
  update-Follows l i =
      let branch = by_phase-Follows l.state.phase (observed l i) i (phase-count_period i l.state) in
      grind (arith, stops, branch, phase-count_period i l.state)

  -- A fault is latched: whatever is fed in afterwards, the state stays invalid with the first
  -- fault's code.
  pub run_latched :
      (l : ZeroForceLogic D) (is : List (Inputs D))
      → l.state.valid ≡ false
      → ((run l is).state.valid ≡ false) × ((run l is).state.fault ≡ l.state.fault)
  unfolding run update fail
  run_latched l [] h = (h, refl)
  run_latched l (i ∷ is) h = ground (arith, run_latched (update l i) is)

  accumulate_noise_keeps :
      (l : ZeroForceLogic D) (x : D)
      → let m = accumulate_noise l x in
        (m.p ≡ l.p) × (m.count ≡ l.count) × (m.state ≡ l.state) × (m.active ≡ l.active)
  unfolding accumulate_noise
  accumulate_noise_keeps l x = ground arith

  measure_noise_lem :
      (l : ZeroForceLogic D) (i : Inputs D)
      → l.count + 1 < 2 ^ 64
      → l.state.phase ≡ noise
      → let n = cycles l.p.noise_duration in
        let m = measure_noise l i in
        (m.active ≡ l.active)
        × (m.p ≡ l.p)
        × (l.count + 1 < n → (m.state.phase ≡ noise) × (m.count ≡ l.count + 1))
        × (n ≤ l.count + 1 → (m.state.phase ≡ compliant))
  unfolding measure_noise
  measure_noise_lem l i w q =
      ground (arith, accumulate_noise_keeps l (fabs (sub i.force l.state.baseline_force)))

  module _ (l : ZeroForceLogic D) (i : Inputs D) where
    -- One accepted cycle of the baseline capture.
    baseline_step :
        l.active ≡ true
        → l.state.phase ≡ baseline
        → l.count + 1 < 2 ^ 64
        → (update l i).state.valid ≡ true
        → let n = cycles l.p.baseline_duration in
          let m = update l i in
          (m.active ≡ true)
          × (m.p ≡ l.p)
          × (l.count + 1 < n → (m.state.phase ≡ baseline) × (m.count ≡ l.count + 1))
          × (n ≤ l.count + 1 → (m.state.phase ≡ noise) × (m.count ≡ 0))
    unfolding update by_phase measure_baseline fail count_period
    baseline_step a q w v = ground arith

    noise_step :
        l.active ≡ true
        → l.state.phase ≡ noise
        → l.count + 1 < 2 ^ 64
        → (update l i).state.valid ≡ true
        → let n = cycles l.p.noise_duration in
          let m = update l i in
          (m.active ≡ true)
          × (m.p ≡ l.p)
          × (l.count + 1 < n → (m.state.phase ≡ noise) × (m.count ≡ l.count + 1))
          × (n ≤ l.count + 1 → (m.state.phase ≡ compliant))
    unfolding update by_phase fail count_period
    noise_step a q w v = ground (arith, measure_noise_lem (holding (observed l i) i) i)

  -- A valid end means that every cycle on the way was valid.
  valid_before :
      (l : ZeroForceLogic D) (is : List (Inputs D))
      → (run l is).state.valid ≡ true
      → l.state.valid ≡ true
  valid_before l is v = ground (arith, run_latched l is)

  -- what the captures do to the phase after `k` more accepted cycles
  abbrev Captured : Phase → ZeroForceLogic D → ℕ → ZeroForceLogic D → Type 0
  Captured q l k m = (m.active ≡ true) × (m.p ≡ l.p) × (m.state.phase ≡ q) × (m.count ≡ l.count + k)

  run_baseline :
      (l : ZeroForceLogic D) (is : List (Inputs D))
      → l.active ≡ true
      → l.state.phase ≡ baseline
      → l.count + length is < cycles l.p.baseline_duration
      → cycles l.p.baseline_duration < 2 ^ 64
      → (run l is).state.valid ≡ true
      → Captured baseline l (length is) (run l is)
  unfolding run
  run_baseline l [] a q h w v = ground arith
  run_baseline l (i ∷ is) a q h w v =
      ground
        (arith, baseline_step l i a q, valid_before (update l i) is v, run_baseline (update l i) is)

  run_noise :
      (l : ZeroForceLogic D) (is : List (Inputs D))
      → l.active ≡ true
      → l.state.phase ≡ noise
      → l.count + length is < cycles l.p.noise_duration
      → cycles l.p.noise_duration < 2 ^ 64
      → (run l is).state.valid ≡ true
      → Captured noise l (length is) (run l is)
  unfolding run
  run_noise l [] a q h w v = ground arith
  run_noise l (i ∷ is) a q h w v =
      ground (arith, noise_step l i a q, valid_before (update l i) is v, run_noise (update l i) is)

  activated :
      (l : ZeroForceLogic D) (p : ZeroForceSettings D) (i : Inputs D)
      → p.hold_only ≡ false
      → (activate l p i).0 ≡ true
      → let m = (activate l p i).1 in
        (m.active ≡ true) × (m.p ≡ p) × (m.state.phase ≡ baseline) × (m.count ≡ 0)
  unfolding activate reset
  activated l p i h a = ground arith

  -- The captures end exactly on time. After a successful activation that does not hold only, with
  -- `n` cycles of baseline and `m` of noise to capture, both below 2 ^ 64: if every cycle is
  -- accepted, the phase is baseline after `n - 1` cycles, noise after `n` and after `n + m - 1`, and
  -- compliant after `n + m`.
  pub captures_on_time :
      (l : ZeroForceLogic D) (p : ZeroForceSettings D) (start : Inputs D) (bs : List (Inputs D))
      (b : Inputs D) (ns : List (Inputs D)) (c : Inputs D)
      → p.hold_only ≡ false
      → (activate l p start).0 ≡ true
      → length bs + 1 ≡ cycles p.baseline_duration
      → length ns + 1 ≡ cycles p.noise_duration
      → cycles p.baseline_duration < 2 ^ 64
      → cycles p.noise_duration < 2 ^ 64
      → (update (run (update (run (activate l p start).1 bs) b) ns) c).state.valid ≡ true
      → let l0 = (activate l p start).1 in
        let l1 = run l0 bs in
        let l2 = update l1 b in
        let l3 = run l2 ns in
        let l4 = update l3 c in
        (l1.state.phase ≡ baseline)
        × (l2.state.phase ≡ noise)
        × (l3.state.phase ≡ noise)
        × (l4.state.phase ≡ compliant)
  unfolding run
  captures_on_time l p start bs b ns c h a eb en wb wn v =
      let l0 = (activate l p start).1 in
      let l1 = run l0 bs in
      let l2 = update l1 b in
      let l3 = run l2 ns in
      let v3 = valid_before l3 (c ∷ []) v in
      let v2 = valid_before l2 ns v3 in
      let v1 = valid_before l1 (b ∷ []) v2 in
      let (a0, p0, q0, k0) = activated l p start h a in
      let r1 = run_baseline l0 bs a0 q0 (rw (p0, k0) (omega arith)) (rw p0 wb) v1 in
      let r2 = baseline_step l1 b r1.0 r1.2 (omega arith) v2 in
      let e2 : l2.p ≡ p = r2.1 ∙ r1.1 ∙ p0 in
      let done : cycles l1.p.baseline_duration ≤ l1.count + 1 = rw (r1.1, p0) (omega arith) in
      let (q2, k2) = r2.3 done in
      let r3 = run_noise l2 ns r2.0 q2 (rw (e2, k2) (omega arith)) (rw e2 wn) v3 in
      let e3 : l3.p ≡ p = r3.1 ∙ e2 in
      let r4 = noise_step l3 c r3.0 r3.2 (omega arith) v in
      let over : cycles l3.p.noise_duration ≤ l3.count + 1 = rw e3 (omega arith) in
      (r1.2, q2, r3.2, r4.3 over)
