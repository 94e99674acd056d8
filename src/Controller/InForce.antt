-- ===== src/Controller/InForce.antt =====
-- The settings that a controller runs with are those of its parameters, whatever is set meanwhile.
use zero_force_controller.Common.{
  ℕ, ◌≡◌, refl, sym, ap, ◌∙◌, Bool, true, false, List, [], ◌∷◌, arith,
}
use zero_force_controller.Double.{Double}
use zero_force_controller.Control.{Inputs}
use zero_force_controller.Controller.Interface.{Law}
use zero_force_controller.Controller.{
  Controller, write_command, refuse, on_activate, on_deactivate, closing, update,
}
use zero_force_controller.Controller.Setup.{
  Source, Node, Call, sets, activates, updates, deactivates, on_init, set_parameters, activate,
  deactivate, cycle, call, calls,
}

-- what a logic does with its settings: it takes them when it accepts an activation, and keeps them
pub record Keeps {D S L : Type 0} (law : Law D S L) (applied : L → S) : Type 0 where
  pub takes :
      (p : S) (i : Inputs D) (l : L)
      → (law.activate p i l).0 ≡ true
      → applied (law.activate p i l).1 ≡ p
  pub keeps : (i : Inputs D) (l : L) → applied (law.update i l) ≡ applied l

module _ {D P S L : Type 0} ⦃d : Double D⦄ (law : Law D S L) (source : Source D P S)
    (applied : L → S) (k : Keeps law applied) where
  record IsInForce (n : Node D P L) : Type 0 where
    guarded : n.guarded ≡ true
    applies : n.controller.active ≡ true → applied n.controller.logic ≡ source.settings n.params

  update_lem :
      (i : Inputs D) (c : Controller D L)
      → ((update law i c).1.active ≡ c.active)
        × (applied (update law i c).1.logic ≡ applied c.logic)
  unfolding update write_command closing
  update_lem i c = (refl, k.keeps i c.logic)

  activate_lem :
      (p : S) (trial : ℕ) (i : Inputs D) (c : Controller D L)
      → (on_activate law p trial i c).1.active ≡ true
      → applied (on_activate law p trial i c).1.logic ≡ p
  unfolding on_activate refuse write_command
  activate_lem p trial i c h = ground (arith, k.takes p i c.logic)

  set_lem :
      (p : P) (accepted : Bool) (n : Node D P L)
      → n.guarded ≡ true
      → let n' = (set_parameters law source p accepted n).1 in
        (n'.guarded ≡ true)
        × (n'.controller ≡ n.controller)
        × (n.controller.active ≡ true → n'.params ≡ n.params)
  unfolding set_parameters
  set_lem p accepted n g = ground arith

  call-IsInForce : (n : Node D P L) (c : Call D P) → IsInForce n → IsInForce (call law source n c)
  unfolding call set_parameters activate deactivate cycle on_deactivate
  call-IsInForce n (sets p accepted) f =
      let (g, c, same) = set_lem p accepted n f.guarded in
      record {
        guarded = g;
        applies = λ h.
            let active = sym (ap (λ t. t.active) c) ∙ h in
            ap (λ t. applied t.logic) c ∙ f.applies active ∙ ap source.settings (sym (same active));
      }
  call-IsInForce n (activates i) f = record {
    guarded = f.guarded;
    applies =
        activate_lem (source.settings n.params) (source.common n.params).trial_id i n.controller;
  }
  call-IsInForce n (updates i) f =
      let (same, kept) = update_lem i n.controller in
      record { guarded = f.guarded; applies = λ h. kept ∙ f.applies (sym same ∙ h) }
  call-IsInForce n (deactivates i) f = record { guarded = f.guarded; applies = λ h. ground arith }

  calls-IsInForce :
      (n : Node D P L) (cs : List (Call D P)) → IsInForce n → IsInForce (calls law source n cs)
  calls-IsInForce n [] f = f
  calls-IsInForce n (c ∷ cs) f = calls-IsInForce (call law source n c) cs (call-IsInForce n c f)

  init_lem :
      (use_sim_time : Bool) (n : Node D P L)
      → n.controller.active ≡ false
      → (on_init law source use_sim_time n).0 ≡ true
      → IsInForce (on_init law source use_sim_time n).1
  unfolding on_init
  init_lem use_sim_time n idle ok = record { guarded = ground arith; applies = λ h. ground arith }

  -- From an accepted `on_init` of an inactive controller on, whatever is set, activated, updated and
  -- deactivated, in any order: while the controller is active, its logic runs with the settings made of
  -- the parameters that are in force then.
  pub settings_in_force :
      (use_sim_time : Bool) (n : Node D P L) (cs : List (Call D P))
      → n.controller.active ≡ false
      → (on_init law source use_sim_time n).0 ≡ true
      → (calls law source (on_init law source use_sim_time n).1 cs).controller.active ≡ true
      → applied (calls law source (on_init law source use_sim_time n).1 cs).controller.logic
        ≡ source.settings (calls law source (on_init law source use_sim_time n).1 cs).params
  settings_in_force use_sim_time n cs idle ok h =
      (calls-IsInForce (on_init law source use_sim_time n).1 cs
          (init_lem use_sim_time n idle ok)).applies
        h
