-- ===== src/Telemetry/Log.antt =====
-- The samples of a pipeline: those that the topics were handed, those on their way, and those that
-- the ring holds.
use zero_force_controller.Common.{◌≡◌, true, false, List, [], ◌∷◌, ◌++◌, map}
use zero_force_controller.Double.{Double}
use zero_force_controller.Control.{fresh_snapshot}
use zero_force_controller.Capture.{Call}
use zero_force_controller.Capture.Queue.{IsValid, contents, stored}
use zero_force_controller.Telemetry.{
  Pipeline, Event, sampled, Entry, batch, Place, waiting, filling, publishing, capacity,
}
use zero_force_controller.Telemetry.Message.{Sample, to_sample}

module _ {D : Type 0} ⦃d : Double D⦄ where
  -- the samples of a log, oldest first
  abbrev pub handed : List (Entry D) → List (Sample D)
  handed [] = []
  handed (batch _ b ∷ l) = handed l ++ b.samples
  handed (_ ∷ l) = handed l

  -- the samples that the drain has taken out and not yet handed over
  abbrev pub unsent : Place → List (Sample D) → List (Sample D)
  unsent filling s = s
  unsent publishing s = s
  unsent _ s = []

  abbrev pub queued : Pipeline D → List (Sample D)
  queued p = map to_sample (contents capacity fresh_snapshot p.capture)

  abbrev pub outstanding : Pipeline D → List (Sample D)
  outstanding p = handed p.log ++ (unsent p.place p.samples ++ queued p)

  -- what an event stores in the ring
  abbrev pub stored_by : Pipeline D → Event D → List (Sample D)
  stored_by p (sampled s) =
      map to_sample (stored capacity fresh_snapshot p.capture (Call.appends s))
  stored_by p _ = []

  abbrev pub IsPiped : Pipeline D → Type 0
  IsPiped p = IsValid capacity fresh_snapshot p.capture

  -- A pipeline before its first event. The ring's indices go on from where they are.
  pub record IsFresh (p : Pipeline D) : Type 0 where
    pub valid : IsValid capacity fresh_snapshot p.capture
    pub empty : p.capture.read ≡ p.capture.write
    pub stopped : p.capture.running ≡ false
    pub completed : p.capture.terminal_pending ≡ false
    pub unused : p.capture.sequence ≡ 0
    pub silent : p.log ≡ []
    pub waits : p.place ≡ waiting
    pub ready : p.ready ≡ true
    pub reported : p.status_pending ≡ false
    pub failures : p.publication_failures ≡ 0
