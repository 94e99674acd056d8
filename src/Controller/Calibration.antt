-- ===== src/Controller/Calibration.antt =====
-- packages/zfc_calibration_controller/src/calibration_sequencer_controller.cpp: the operations of
-- Controller over the logic of the calibration.
use zero_force_controller.Common.{ℕ, Bool}
use zero_force_controller.Double.{Double}
use zero_force_controller.Control.{Inputs}
use zero_force_controller.Sequencer.Logic.{CalibrationSettings, SequencerLogic}
use zero_force_controller.Controller.{
  Controller, on_configure, on_activate, on_deactivate, write_command, update,
}
use zero_force_controller.Controller.Logics.{calibration_law}

abbrev pub CalibrationController : Type 0 → Type 0
CalibrationController D = Controller D (SequencerLogic D)

module _ {D : Type 0} ⦃d : Double D⦄ where
  abbrev pub configure : CalibrationSettings D → Bool
  configure = on_configure calibration_law

  abbrev pub activate :
      CalibrationSettings D
      → ℕ
      → Inputs D
      → CalibrationController D
      → Bool × CalibrationController D
  activate = on_activate calibration_law

  abbrev pub deactivate : Inputs D → CalibrationController D → CalibrationController D
  deactivate = on_deactivate calibration_law

  abbrev pub write : D → D → CalibrationController D → CalibrationController D
  write = write_command calibration_law

  abbrev pub cycle : Inputs D → CalibrationController D → Bool × CalibrationController D
  cycle = update calibration_law
