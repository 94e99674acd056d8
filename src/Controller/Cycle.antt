-- ===== src/Controller/Cycle.antt =====
-- What the controller writes to the command interface.
use zero_force_controller.Common.{ℕ, ◌≡◌, ◌∙◌, sym, ap, Bool, true, false, List, [], ◌∷◌, arith}
use zero_force_controller.Double.{Double}
use zero_force_controller.Control.{Inputs, MotionBounds, contains}
use zero_force_controller.Capture
use zero_force_controller.Output.{resolve, settle}
use zero_force_controller.Telemetry
use zero_force_controller.Controller.{
  Controller, write_command, on_activate, refuse, update, closing, cycles,
}
use zero_force_controller.Controller.Interface.{Law, IsSound}

module _ {D S L : Type 0} ⦃d : Double D⦄ (law : Law D S L) (sound : IsSound law) where
  open d use {is_finite}
  open law use {state}

  contains_finite :
      (b : MotionBounds D) (q origin : D) → contains b q origin ≡ true → is_finite q ≡ true
  unfolding contains
  contains_finite b q origin h = ground arith

  -- A controller behind a cycle with this result.
  pub record IsCommanded (c : Controller D L) (ok : Bool) : Type 0 where
    pub safe : sound.IsSafe c.logic
    pub sent :
        ok ≡ true
        → law.is_active c.logic ≡ true
        → (c.command ≡ (state c.logic).reference_position)
          × (contains (law.limits c.logic) c.command (law.origin c.logic) ≡ true)
    pub failed : ok ≡ false → c.telemetry.capture.running ≡ false
    pub blocked : ok ≡ false → c.output.finite_fault_hold ≡ false → is_finite c.command ≡ false

  written :
      (requested measured : D) (c : Controller D L)
      → let c' = write_command law requested measured c in
        (c'.logic ≡ c.logic)
        × (c'.output.finite_fault_hold ≡ c.output.finite_fault_hold)
        × (is_finite requested ≡ true → c'.command ≡ requested)
        × (c.output.finite_fault_hold ≡ false → c'.command ≡ requested)
  unfolding write_command resolve settle
  written requested measured c = ground arith

  closing_ends :
      (w : Controller D L)
      → (state w.logic).valid ≡ false
      → (closing law w).telemetry.capture.running ≡ false
  unfolding closing Telemetry.finish Capture.finish
  closing_ends w bad = ground arith

  -- the end of `update`, behind the write of the command
  closing_lem :
      (l : L) (w : Controller D L)
      → sound.IsSafe l
      → w.logic ≡ l
      → (is_finite (state l).reference_position ≡ true → w.command ≡ (state l).reference_position)
      → (w.output.finite_fault_hold ≡ false → w.command ≡ (state l).reference_position)
      → IsCommanded (closing law w) (state l).valid
  unfolding closing
  closing_lem l w s same finite plain = record {
    safe = rw same s;
    sent = λ ok active.
        let at = sound.sendable l s (sym (ap law.is_active same) ∙ active) ok in
        let e = finite (contains_finite _ _ _ at) in (rw same e, rw (same, e) at);
    failed = λ bad. closing_ends w (ap (λ k. (state k).valid) same ∙ bad);
    blocked = λ bad free. rw (plain free) (sound.stopped l s bad);
  }

  pub update-IsCommanded :
      (i : Inputs D) (c : Controller D L)
      → sound.IsReady c.logic
      → IsCommanded (update law i c).1 (update law i c).0
  unfolding update
  update-IsCommanded i c r =
      let l = law.update i c.logic in
      let q = (state l).reference_position in
      let c1 = record c { logic = l } in
      let (kept, hold, finite, plain) = written q i.position c1 in
      let w = write_command law q i.position c1 in
      closing_lem l w (sound.updated i c.logic r) kept (λ f. finite f) (λ h. plain (sym hold ∙ h))

  cycles-IsCommanded :
      (i : Inputs D) (is : List (Inputs D)) (c : Controller D L)
      → sound.IsReady c.logic
      → IsCommanded (cycles law i is c).1 (cycles law i is c).0
  unfolding cycles
  cycles-IsCommanded i [] c r = update-IsCommanded i c r
  cycles-IsCommanded i (j ∷ is) c r =
      let done = update-IsCommanded i c r in
      cycles-IsCommanded j is (update law i c).1 (sound.stays _ done.safe)

  -- whatever comes of `on_activate`, the logic is what its `activate` leaves
  logic-on_activate :
      (p : S) (n : ℕ) (i : Inputs D) (c : Controller D L)
      → (on_activate law p n i c).1.logic ≡ (law.activate p i c.logic).1
  unfolding on_activate refuse write_command Telemetry.begin
  logic-on_activate p n i c = ground arith

  -- After `on_activate` and one cycle or more of the controller, with any inputs, the logic is safe.
  -- If the last cycle returns OK and the logic is active, the command interface has the reference,
  -- which lies in the motion bounds. If it returns ERROR, the trial has ended, and the command is not
  -- finite unless a fault is held.
  pub activated-IsCommanded :
      (p : S) (n : ℕ) (start i : Inputs D) (is : List (Inputs D)) (c : Controller D L)
      → let (ok, c') = cycles law i is (on_activate law p n start c).1 in IsCommanded c' ok
  activated-IsCommanded p n start i is c =
      cycles-IsCommanded i is (on_activate law p n start c).1
        (rw (logic-on_activate p n start c) (sound.activated p start c.logic))
