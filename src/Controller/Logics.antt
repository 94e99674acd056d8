-- ===== src/Controller/Logics.antt =====
-- The logic of the two controllers: packages/zfc_zero_force_controller/include/zfc_zero_force_
-- controller/zero_force_controller.hpp and packages/zfc_calibration_controller/include/zfc_
-- calibration_controller/calibration_sequencer_controller.hpp each hold one.
use zero_force_controller.Common.{◌≡◌}
use zero_force_controller.Double.{Double}
use zero_force_controller.Double.Laws.{IsIeee}
use zero_force_controller.Control.{complete}
use zero_force_controller.ZeroForce
use zero_force_controller.ZeroForce.{ZeroForceSettings, ZeroForceLogic}
use zero_force_controller.ZeroForce.Safety
use zero_force_controller.Sequencer.Logic
use zero_force_controller.Sequencer.Logic.{CalibrationSettings, SequencerLogic}
use zero_force_controller.Sequencer.Logic.Safety as Guard
use zero_force_controller.Controller.Interface.{Law, IsSound}

module _ {D : Type 0} ⦃d : Double D⦄ where
  abbrev pub zero_force_law : Law D (ZeroForceSettings D) (ZeroForceLogic D)
  zero_force_law = record {
    settings_valid = ZeroForce.settings_valid;
    activate = λ p i l. ZeroForce.activate l p i;
    update = λ i l. ZeroForce.update l i;
    reset = ZeroForce.reset;
    state = λ l. l.state;
    is_active = λ l. l.active;
    limits = λ l. l.p.limits;
    origin = λ l. l.origin;
  }

  abbrev pub calibration_law : Law D (CalibrationSettings D) (SequencerLogic D)
  calibration_law = record {
    settings_valid = Logic.settings_valid;
    activate = Logic.activate;
    update = λ i l. Logic.update l i;
    reset = Logic.reset;
    state = λ l. l.state;
    is_active = λ l. l.active;
    limits = λ l. l.p.limits;
    origin = λ l. l.origin;
  }

  abbrev pub zero_force-IsSound : IsIeee D → IsSound zero_force_law
  zero_force-IsSound ieee = record {
    IsReady = Safety.IsSafe;
    IsSafe = Safety.IsSafe;
    activated = λ p i l. Safety.activate-IsSafe ieee l p i;
    updated = λ i l r. Safety.update-IsSafe ieee l i r;
    stays = λ l s. s;
    sendable = λ l s active valid. (s.sendable active valid).position;
    stopped = λ l s. s.stopped;
  }

  -- The trajectory starts at the position, which `activate` has checked in another way.
  abbrev pub calibration-IsSound : IsIeee D → IsSound calibration_law
  calibration-IsSound ieee = record {
    IsReady = λ l. l.state.phase ≡ complete → Guard.IsGuarded l;
    IsSafe = Guard.IsGuarded;
    activated = λ p i l. Guard.activate-phase ieee p i l;
    updated = λ i l r. Guard.update-IsGuarded ieee l i r;
    stays = λ l s _. s;
    sendable = λ l s _ valid. (s.tracked valid).position;
    stopped = λ l s. s.stopped;
  }
