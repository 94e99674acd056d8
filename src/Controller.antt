-- ===== src/Controller.antt =====
-- packages/zfc_zero_force_controller/src/zero_force_controller.cpp and packages/zfc_calibration_
-- controller/src/calibration_sequencer_controller.cpp: the two controllers have the same code round
-- their logic, so the logic is an interface that both fill (Law). A controller is a client of its
-- law, of Output and of Telemetry. It has one command and three state interfaces; the parameters are
-- arguments.
pub mod Interface
pub mod Logics
pub mod Calibration
pub mod Activation
pub mod Cycle
pub mod Session
pub mod Params
pub mod Setup
pub mod InForce
pub mod Kept
use zero_force_controller.Common.{
  ℕ, Bool, true, false, not, ◌&&◌, ◌||◌, none, some, List, [], ◌∷◌, ◌==◌, leb, if◌then◌else◌,
}
use zero_force_controller.Double.{Double}
use zero_force_controller.Control.{Phase, complete, Inputs, increment}
use zero_force_controller.Output.{CommandOutput, resolve}
use zero_force_controller.Telemetry
use zero_force_controller.Telemetry.{Pipeline}
use Interface.{Law}

-- `command` is the value of the command interface.
pub record Controller (D L : Type 0) : Type 0 where
  pub logic : L
  pub output : CommandOutput D
  pub telemetry : Pipeline D
  pub last_trial : ℕ
  pub active : Bool
  pub command : D

abbrev pub is_complete : Phase → Bool
is_complete complete = true
is_complete _ = false

module _ {D S L : Type 0} ⦃d : Double D⦄ (law : Law D S L) where
  open d use {is_finite, nan}
  open law use {state}

  unfoldable pub write_command : D → D → Controller D L → Controller D L
  write_command requested measured c =
      let (out, o) = resolve c.output requested measured in
      record c { output = o; command = elim out [ none ↦ c.command | some v ↦ v ] }

  abbrev pub all_finite : Inputs D → Bool
  all_finite i = is_finite i.position && is_finite i.velocity && is_finite i.force

  unfoldable pub on_configure : S → Bool
  on_configure p = law.settings_valid p

  -- the handler of the exceptions of `on_activate`
  unfoldable pub refuse : Inputs D → Controller D L → Bool × Controller D L
  refuse i c = (
    false,
    write_command (if all_finite i then i.position else nan) i.position
        (record c { active = false }),
  )

  unfoldable pub on_activate : S → ℕ → Inputs D → Controller D L → Bool × Controller D L
  on_activate p trial_id i c =
      let (accepted, logic) = law.activate p i c.logic in
      let c1 = record c { active = true; logic = logic } in
      let trial = if trial_id == 0 then increment c.last_trial else trial_id in
      if not accepted || leb trial c.last_trial
      then refuse i c1
      else (let (begun, t) = Telemetry.begin trial c.telemetry in
          let c2 = record c1 { telemetry = t } in
          if not begun
          then refuse i c2
          else (let c3 = write_command i.position i.position (record c2 { last_trial = trial }) in
              (true, record c3 { telemetry = Telemetry.sample (state c3.logic) c3.telemetry })))

  unfoldable pub on_deactivate : Inputs D → Controller D L → Controller D L
  on_deactivate i c =
      let requested = if (state c.logic).valid && all_finite i then i.position else nan in
      let c1 = write_command requested i.position c in
      record c1 {
        telemetry = Telemetry.finish false c1.telemetry;
        logic = law.reset c1.logic;
        active = false;
      }

  -- the sample of the cycle, and the end of a trial that is complete or faulted
  unfoldable pub closing : Controller D L → Controller D L
  closing c =
      let s = state c.logic in
      let t = Telemetry.sample s c.telemetry in
      record c {
        telemetry =
            if not s.valid || is_complete s.phase
            then Telemetry.finish (is_complete s.phase && s.valid) t
            else t;
      }

  -- the result is OK or ERROR
  unfoldable pub update : Inputs D → Controller D L → Bool × Controller D L
  update i c =
      let logic = law.update i c.logic in
      let s = state logic in
      (
        s.valid,
        closing (write_command s.reference_position i.position (record c { logic = logic })),
      )

  -- cycles one after another, with the result of the last
  unfoldable pub cycles : Inputs D → List (Inputs D) → Controller D L → Bool × Controller D L
  cycles i [] c = update i c
  cycles i (j ∷ is) c = cycles j is (update i c).1
