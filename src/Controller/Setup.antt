-- ===== src/Controller/Setup.antt =====
-- The node of a controller: `on_init` of both, the interfaces that they ask for, and the callback that
-- guards the parameters while the controller is active. The generated library checks a set of
-- parameters by itself; its answer is an argument.
use zero_force_controller.Common.{
  ℕ, Bool, true, false, not, ◌&&◌, ◌||◌, List, [], ◌∷◌, ◌++◌, ◌==◌, if◌then◌else◌,
}
use zero_force_controller.Double.{Double}
use zero_force_controller.Control.{Inputs}
use zero_force_controller.ZeroForce.{ZeroForceSettings}
use zero_force_controller.Sequencer.Logic.{CalibrationSettings}
use zero_force_controller.Controller.Params.{
  Name, Common, ZeroForceParams, CalibrationParams, zero_force_settings, calibration_settings,
}
use zero_force_controller.Controller.Interface.{Law}
use zero_force_controller.Controller.{Controller, on_configure, on_activate, on_deactivate, update}

-- the parameters of a controller, as its code uses them
pub record Source (D P S : Type 0) : Type 0 where
  pub common : P → Common D
  pub settings : P → S

abbrev pub zero_force_source : {D : Type 0} → Source D (ZeroForceParams D) (ZeroForceSettings D)
zero_force_source = record { common = λ q. q.common; settings = zero_force_settings }

abbrev pub calibration_source :
    {D : Type 0} → Source D (CalibrationParams D) (CalibrationSettings D)
calibration_source = record { common = λ q. q.common; settings = calibration_settings }

-- The guard is there if `on_init` came so far.
pub record Node (D P L : Type 0) : Type 0 where
  pub joint_name : Name
  pub force_interface : Name
  pub guarded : Bool
  pub params : P
  pub controller : Controller D L

pub data Call (D P : Type 0) : Type 0 where
  sets : P → Bool → Call D P
  activates updates deactivates : Inputs D → Call D P

abbrev slash : ℕ
slash = 47

abbrev has_slash : Name → Bool
has_slash [] = false
has_slash (c ∷ cs) = c == slash || has_slash cs

abbrev starts_with_slash : Name → Bool
starts_with_slash [] = false
starts_with_slash (c ∷ cs) = c == slash

abbrev ends_with_slash : Name → Bool
ends_with_slash [] = false
ends_with_slash (c ∷ []) = c == slash
ends_with_slash (c ∷ d ∷ cs) = ends_with_slash (d ∷ cs)

abbrev is_empty : Name → Bool
is_empty [] = true
is_empty (c ∷ cs) = false

unfoldable pub names_valid : Name → Name → Bool
names_valid joint force = not (
    is_empty joint
    || has_slash joint
    || not (has_slash force)
    || starts_with_slash force
    || ends_with_slash force)

-- "/position" and "/velocity"
abbrev position_suffix : Name
position_suffix = 47 ∷ 112 ∷ 111 ∷ 115 ∷ 105 ∷ 116 ∷ 105 ∷ 111 ∷ 110 ∷ []

abbrev velocity_suffix : Name
velocity_suffix = 47 ∷ 118 ∷ 101 ∷ 108 ∷ 111 ∷ 99 ∷ 105 ∷ 116 ∷ 121 ∷ []

abbrev pub command_interfaces : {D P L : Type 0} → Node D P L → List Name
command_interfaces n = (n.joint_name ++ position_suffix) ∷ []

abbrev pub state_interfaces : {D P L : Type 0} → Node D P L → List Name
state_interfaces n =
    (n.joint_name ++ position_suffix) ∷ (n.joint_name ++ velocity_suffix) ∷ n.force_interface ∷ []

module _ {D P S L : Type 0} ⦃d : Double D⦄ (law : Law D S L) (source : Source D P S) where
  -- `use_sim_time` is the parameter of the node.
  unfoldable pub on_init : Bool → Node D P L → Bool × Node D P L
  on_init use_sim_time n =
      let p = source.common n.params in
      let named = record n {
        joint_name = p.joint_name;
        force_interface = p.force_interface;
        controller = record n.controller {
          output = record n.controller.output { finite_fault_hold = p.finite_fault_hold };
        };
      } in
      if p.finite_fault_hold && not use_sim_time || not (names_valid p.joint_name p.force_interface)
      then (false, named)
      else (true, record named { guarded = true })

  -- `accepted` is the answer of the generated library, which is asked behind the guard.
  unfoldable pub set_parameters : P → Bool → Node D P L → Bool × Node D P L
  set_parameters p accepted n =
      if n.guarded && n.controller.active || not accepted
      then (false, n)
      else (true, record n { params = p })

  unfoldable pub configure : Node D P L → Bool
  configure n = on_configure law (source.settings n.params)

  unfoldable pub activate : Inputs D → Node D P L → Bool × Node D P L
  activate i n =
      let (ok, c) =
        on_activate law (source.settings n.params) (source.common n.params).trial_id i
          n.controller in
      (ok, record n { controller = c })

  unfoldable pub deactivate : Inputs D → Node D P L → Node D P L
  deactivate i n = record n { controller = on_deactivate law i n.controller }

  unfoldable pub cycle : Inputs D → Node D P L → Node D P L
  cycle i n = record n { controller = (update law i n.controller).1 }

  -- one call of ROS, and calls one after another
  unfoldable pub call : Node D P L → Call D P → Node D P L
  call n (sets p accepted) = (set_parameters p accepted n).1
  call n (activates i) = (activate i n).1
  call n (updates i) = cycle i n
  call n (deactivates i) = deactivate i n

  abbrev pub calls : Node D P L → List (Call D P) → Node D P L
  calls n [] = n
  calls n (c ∷ cs) = calls (call n c) cs
