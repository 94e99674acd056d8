-- ===== src/Controller/Activation.antt =====
-- The activation of a controller, and the trial that it begins.
use zero_force_controller.Common.{
  ℕ, ◌<◌, ◌≡◌, refl, sym, ap, ◌∙◌, Bool-cases, inl, inr, Bool, true, false, not, ◌||◌, ◌==◌, leb,
  ◌∷◌, arith, if◌then◌else◌,
}
use zero_force_controller.Double.{Double}
use zero_force_controller.Control.{Inputs, Snapshot, increment}
use zero_force_controller.Capture
use zero_force_controller.Output.{resolve, settle}
use zero_force_controller.Telemetry
use zero_force_controller.Telemetry.{Pipeline, begun}
use zero_force_controller.Controller.{Controller, write_command, refuse, on_activate, all_finite}
use zero_force_controller.Controller.Interface.{Law}

module _ {D S L : Type 0} ⦃d : Double D⦄ (law : Law D S L) where
  open d use {is_finite, nan}

  -- what the pipeline of a refused activation keeps
  abbrev Untouched : Pipeline D → Pipeline D → Type 0
  Untouched t t' = (t'.ready ≡ t.ready) × (t'.capture ≡ t.capture) × (t'.log ≡ t.log)

  -- the outcome of an activation of `c`
  pub record IsActivation (c : Controller D L) (i : Inputs D) (ok : Bool) (c' : Controller D L)
      : Type 0 where
    pub started :
        ok ≡ true
        → (c.last_trial < c'.last_trial)
          × (c.telemetry.ready ≡ true)
          × (c'.telemetry.ready ≡ false)
          × (c'.telemetry.log ≡ begun c'.last_trial ∷ c.telemetry.log)
          × (c'.active ≡ true)
          × (c'.telemetry.capture.running ≡ true)
          × (c'.telemetry.capture.trial ≡ c'.last_trial)
          × (is_finite i.position ≡ true → c'.command ≡ i.position)
    pub refused :
        ok ≡ false
        → (c'.last_trial ≡ c.last_trial) × (c'.active ≡ false) × Untouched c.telemetry c'.telemetry

  written :
      (requested measured : D) (c : Controller D L)
      → let c' = write_command law requested measured c in
        (c'.telemetry ≡ c.telemetry)
        × (c'.last_trial ≡ c.last_trial)
        × (c'.active ≡ c.active)
        × (c'.logic ≡ c.logic)
        × (is_finite requested ≡ true → c'.command ≡ requested)
  unfolding write_command resolve settle
  written requested measured c = ground arith

  begun_lem :
      (trial : ℕ) (t : Pipeline D)
      → let (ok, t') = Telemetry.begin trial t in
        (ok ≡ false → Untouched t t')
        × (ok ≡ true
            → (t.ready ≡ true)
              × (t'.ready ≡ false)
              × (t'.log ≡ begun trial ∷ t.log)
              × (t'.capture.running ≡ true)
              × (t'.capture.trial ≡ trial))
  unfolding Telemetry.begin Capture.begin
  begun_lem trial t = ground arith

  sampled_lem :
      (s : Snapshot D) (t : Pipeline D)
      → let t' = Telemetry.sample s t in
        (t'.ready ≡ t.ready)
        × (t'.log ≡ t.log)
        × (t'.capture.running ≡ t.capture.running)
        × (t'.capture.trial ≡ t.capture.trial)
  unfolding Telemetry.sample Capture.append
  sampled_lem s t = ground arith

  refuse-IsActivation :
      (i : Inputs D) (c c1 : Controller D L)
      → c1.last_trial ≡ c.last_trial
      → Untouched c.telemetry c1.telemetry
      → IsActivation c i (refuse law i c1).0 (refuse law i c1).1
  unfolding refuse
  refuse-IsActivation i c c1 l t =
      let (same, last, idle, _, _) =
        written (if all_finite law i then i.position else nan) i.position
          (record c1 { active = false }) in
      record { started = λ ok. ground arith; refused = λ _. (last ∙ l, idle, rw same t) }

  -- the end of `on_activate` behind a `begin` that has accepted
  abbrev complete_start : ℕ → Inputs D → Controller D L → Controller D L
  complete_start trial i c =
      let w = write_command law i.position i.position (record c { last_trial = trial }) in
      record w { telemetry = Telemetry.sample (law.state w.logic) w.telemetry }

  complete_start-IsActivation :
      (trial : ℕ) (i : Inputs D) (c : Controller D L) (l : L)
      → c.last_trial < trial
      → (Telemetry.begin trial c.telemetry).0 ≡ true
      → let t = (Telemetry.begin trial c.telemetry).1 in
        IsActivation c i true
          (complete_start trial i (record c { active = true; logic = l; telemetry = t }))
  complete_start-IsActivation trial i c l up ok =
      let t = (Telemetry.begin trial c.telemetry).1 in
      let c1 = record c { active = true; logic = l; telemetry = t; last_trial = trial } in
      let (was, ready, log, running, named) = (begun_lem trial c.telemetry).1 ok in
      let (same, last, active, _, at) = written i.position i.position c1 in
      let w = write_command law i.position i.position c1 in
      let (r, g, n, k) = sampled_lem (law.state w.logic) w.telemetry in
      record {
        started = λ _. (
          rw last up,
          was,
          r ∙ ap (λ t. t.ready) same ∙ ready,
          rw last (g ∙ ap (λ t. t.log) same ∙ log),
          active,
          n ∙ ap (λ t. t.capture.running) same ∙ running,
          k ∙ ap (λ t. t.capture.trial) same ∙ named ∙ sym last,
          λ f. at f,
        );
        refused = λ bad. cc;
      }

  -- An activation that succeeds found the publisher ready, and begins a trial with a larger
  -- identifier than the last: the publisher is no longer ready, the trial is the newest of the log,
  -- the capture runs under its identifier, the controller is active, and a finite position is the
  -- command. One that is refused leaves the last identifier, the publisher's readiness, its capture
  -- and its log as they were, and the controller inactive.
  pub on_activate-IsActivation :
      (p : S) (n : ℕ) (i : Inputs D) (c : Controller D L)
      → let (ok, c') = on_activate law p n i c in IsActivation c i ok c'
  unfolding on_activate
  on_activate-IsActivation p n i c =
      let (accepted, l) = law.activate p i c.logic in
      let trial = if n == 0 then increment c.last_trial else n in
      let c1 = record c { active = true; logic = l } in
      let (ok, t) = Telemetry.begin trial c.telemetry in
      elim (Bool-cases (not accepted || leb trial c.last_trial)) [
        | inl b ↦ rw b (refuse-IsActivation i c c1 refl (refl, refl, refl))
        | inr b ↦ elim (Bool-cases ok) [
          | inl yes_begun ↦
              rw (b, yes_begun) (complete_start-IsActivation trial i c l (ground arith) yes_begun)
          | inr not_begun ↦
              rw (b, not_begun)
                (refuse-IsActivation i c (record c1 { telemetry = t }) refl
                  ((begun_lem trial c.telemetry).0 not_begun))
        ]
      ]
