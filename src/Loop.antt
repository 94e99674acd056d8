-- ===== src/Loop.antt =====
-- The turns of the control loop, packages/zfc_profiling/src/profile_control_node.cpp: the hardware is
-- read, the active controller is updated, and the hardware is written. The controller manager passes
-- the calls on; the interfaces are members of the hardware that the controller reads and writes.
pub mod Turn
use zero_force_controller.Common.{ℕ, Bool}
use zero_force_controller.Common.Int.{ℤ}
use zero_force_controller.Double.{Double}
use zero_force_controller.Control.{Inputs}
use zero_force_controller.Ethercat.Image.{Ecrt}
use zero_force_controller.Ethercat.System.{Poll}
use zero_force_controller.Calibration.{Axes}
use zero_force_controller.Hardware.{Hardware}
use zero_force_controller.Hardware.Read.{read}
use zero_force_controller.Hardware.Write.{write}
use zero_force_controller.Controller.{Controller, update}
use zero_force_controller.Controller.Interface.{Law}

pub record Loop (Image D L : Type 0) : Type 0 where
  pub hardware : Hardware Image D
  pub controller : Controller D L

module _ {Image D : Type 0} where
  -- what the state interfaces show; `axis` is the force interface of the controller
  abbrev pub inputs : (Axes D → D) → ℤ → ℤ → Hardware Image D → Inputs D
  inputs axis time period h = record {
    position = h.si_state.position;
    velocity = h.si_state.velocity;
    force = axis h.si_state.force;
    time_ns = time;
    period_ns = period;
  }

  abbrev pub commanded : {L : Type 0} → Hardware Image D → Controller D L → Hardware Image D
  commanded h c = record h { command = c.command }

module _ {Image D S L : Type 0} ⦃e : Ecrt Image⦄ ⦃d : Double D⦄ (law : Law D S L)
    (axis : Axes D → D) where
  unfoldable pub turn : ℕ → ℕ → ℤ → ℤ → Poll Image → Loop Image D L → Bool × Loop Image D L
  turn now later time period p s =
      let h = (read now period p s.hardware).1 in
      let (done, c) =
        update law (inputs axis time period h) (record s.controller { command = h.command }) in
      (done, record { hardware = (write later (commanded h c)).1; controller = c })
