-- ===== src/Telemetry/Accounts.antt =====
-- What the status of a trial says of its samples, and what the pipeline keeps for it.
pub mod Counts
pub mod Owned
use mathlib.Core.List.{append-nil, append_assoc, map-append}
use zero_force_controller.Common.{
  ℕ, ◌+◌, ◌-◌, ◌%◌, ◌^◌, ◌≤◌, ◌<◌, ◌≡◌, refl, ap, sym, ◌∙◌, Bool, true, false, not, ◌&&◌, ◌||◌,
  List, [], ◌∷◌, ◌++◌, Option, none, some, map, arith, length, length-append, ltb, ◌==◌,
  if◌then◌else◌, All,
}
use zero_force_controller.Double.{Double}
use zero_force_controller.Control.{Snapshot, fresh_snapshot}
use zero_force_controller.Capture
use zero_force_controller.Capture.{Capture, append, pop, completion}
use zero_force_controller.Capture.Queue.{IsValid, contents, stored, step_lem}
use zero_force_controller.Telemetry.{
  Pipeline, Event, begins, sampled, finishes, ticks, Entry, begun, batch, status, Place, waiting,
  looping, filling, publishing, completing, reporting, capacity, batch_size, begin, sample, finish,
  fill, publish, complete, report, advance, step, run, hand_over, make_batch,
}
use zero_force_controller.Telemetry.Message.{Sample, TrialStatus, to_sample}
use zero_force_controller.Telemetry.Log.{unsent, queued, IsPiped, stored_by, IsFresh}
use zero_force_controller.Telemetry.Handshake.{is_open, IsOrderly, fresh-IsOrderly, step-IsOrderly}

module _ {D : Type 0} ⦃d : Double D⦄ where
  -- the newest trial of a log
  abbrev pub trial_of : List (Entry D) → ℕ
  trial_of [] = 0
  trial_of (begun id ∷ l) = id
  trial_of (_ ∷ l) = trial_of l

  -- Each trial has a larger identifier than the one before.
  abbrev pub Rising : List (Entry D) → Type 0
  Rising [] = Unit {0}
  Rising (begun id ∷ l) = (trial_of l < id) × Rising l
  Rising (_ ∷ l) = Rising l

  -- the samples of the newest trial that the topic took, and those that it refused
  abbrev pub accepted : List (Entry D) → ℕ
  accepted [] = 0
  accepted (begun _ ∷ l) = 0
  accepted (batch taken b ∷ l) = if taken then accepted l + length b.samples else accepted l
  accepted (status _ ∷ l) = accepted l

  abbrev pub refused : List (Entry D) → ℕ
  refused [] = 0
  refused (begun _ ∷ l) = 0
  refused (batch taken b ∷ l) = if taken then refused l else refused l + length b.samples
  refused (status _ ∷ l) = refused l

  -- A status names its trial, accounts for every sample, and says that the capture is complete only
  -- if the topic took all of them.
  pub record IsAccurate (l : List (Entry D)) (s : TrialStatus) : Type 0 where
    pub same : s.trial_id ≡ trial_of l
    pub accounted : accepted l + refused l + s.dropped_samples ≡ s.final_sequence
    pub whole : s.capture_complete ≡ true → accepted l ≡ s.final_sequence

  abbrev pub Accurate : List (Entry D) → Type 0
  Accurate [] = Unit {0}
  Accurate (status s ∷ l) = IsAccurate l s × Accurate l
  Accurate (_ ∷ l) = Accurate l

  -- The samples of a batch are of the newest trial.
  abbrev pub Owns : ℕ → List (Sample D) → Type 0
  Owns id = All (λ s. s.trial_id ≡ id)

  pub record IsAccounted (p : Pipeline D) : Type 0 where
    pub order : p.capture.read ≤ p.capture.write
    pub same : is_open p.log ≡ true → p.capture.trial ≡ trial_of p.log
    pub last :
        p.capture.running ≡ true
        → (p.capture.last.trial_id ≡ p.capture.trial)
          × (p.capture.last.sequence ≡ p.capture.sequence)
    pub terminal :
        p.capture.terminal_pending ≡ true
        → (p.capture.terminal.final.trial_id ≡ p.capture.trial)
          × (p.capture.terminal.final.sequence ≡ p.capture.sequence)
          × (p.capture.terminal.dropped ≡ p.capture.drops)
    pub counts :
        is_open p.log ≡ true
        → accepted p.log
            + refused p.log
            + length (unsent p.place p.samples)
            + (p.capture.write - p.capture.read)
            + p.capture.drops
          ≡ p.capture.sequence
    pub consumer :
        is_open p.log ≡ true
        → 0 < accepted p.log + refused p.log
        → (p.consumer_trial ≡ trial_of p.log)
    pub failed : is_open p.log ≡ true → refused p.log ≤ p.publication_failures
    pub small : p.publication_failures + length (unsent p.place p.samples) ≤ p.capture.read
    pub pending : p.status_pending ≡ true → IsAccurate p.log p.pending_status
    pub accurate : Accurate p.log

  -- The samples on their way are of the trial that the ring is in.
  abbrev pub IsOwned : Pipeline D → Type 0
  IsOwned p = Owns p.capture.trial (unsent p.place p.samples) × Owns p.capture.trial (queued p)
