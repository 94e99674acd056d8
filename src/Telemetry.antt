-- ===== src/Telemetry.antt =====
-- packages/zfc_interfaces/include/zfc_interfaces/telemetry_publisher.hpp: the publisher between the
-- capture ring and the topics. The producer's calls are `begin`, `sample` and `finish`; the timer's
-- callback `drain` is a machine that makes one access to what they share in a step, so that a list of
-- events is an interleaving of both. Whether the middleware takes a message is a Boolean of the step.
pub mod Message
pub mod Log
pub mod Passage
pub mod Delivery
pub mod Handshake
pub mod Accounts
pub mod Status
use zero_force_controller.Common.{
  ℕ, ◌+◌, ◌%◌, ◌^◌, Bool, true, false, not, ◌&&◌, List, [], ◌∷◌, ◌++◌, Option, none, some, ◌==◌,
  ltb, length, if◌then◌else◌,
}
use zero_force_controller.Double.{Double}
use zero_force_controller.Control.{Snapshot, fresh_snapshot}
use zero_force_controller.Capture
use zero_force_controller.Capture.{Capture, CaptureRecord, Completion, append, pop, completion}
use Message.{Sample, Batch, TrialStatus, to_sample, to_status}

-- Where `drain_locked` stands: before it, at the head of its outer loop, in its inner loop, behind
-- that with samples, at `completion`, and at the status.
pub data Place : Type 0 where
  waiting looping filling publishing completing reporting : Place

-- what the topics were handed, with whether they took it, and the trials that began; newest first
pub data Entry (D : Type 0) : Type 0 where
  begun : ℕ → Entry D
  batch : Bool → Batch D → Entry D
  status : TrialStatus → Entry D

-- `samples` is `batch_.samples`; `consumed` is the variable of the loop.
pub record Pipeline (D : Type 0) : Type 0 where
  pub capture : Capture.Capture (Snapshot D)
  pub ready : Bool
  pub consumer_trial : ℕ
  pub publication_failures : ℕ
  pub status_pending : Bool
  pub pending_status : TrialStatus
  pub samples : List (Sample D)
  pub consumed : ℕ
  pub place : Place
  pub log : List (Entry D)

-- the calls of the controller, and a step of the drain
pub data Event (D : Type 0) : Type 0 where
  begins : ℕ → Event D
  sampled : Snapshot D → Event D
  finishes : Bool → Event D
  ticks : Bool → Event D

-- the size of `Capture<8192>`, and of a batch
abbrev pub capacity : ℕ
capacity = 8_192

abbrev pub batch_size : ℕ
batch_size = 256

module _ {D : Type 0} ⦃d : Double D⦄ where
  unfoldable pub begin : ℕ → Pipeline D → Bool × Pipeline D
  begin id p =
      let (accepted, c) = Capture.begin fresh_snapshot p.capture id in
      if not p.ready
      then (false, p)
      else if accepted
      then (true, record p { ready = false; capture = c; log = begun id ∷ p.log })
      else (false, record p { ready = true })

  unfoldable pub sample : Snapshot D → Pipeline D → Pipeline D
  sample s p = record p { capture = append capacity p.capture s }

  unfoldable pub finish : Bool → Pipeline D → Pipeline D
  finish completed p = record p { capture = Capture.finish p.capture completed }

  -- `samples.back()` behind `first`
  abbrev pub back : Sample D → List (Sample D) → Sample D
  back first [] = first
  back first (s ∷ rest) = back s rest

  -- the test of the inner loop, and its body
  unfoldable pub fill : Pipeline D → Pipeline D
  fill p =
      let full = record p { place = elim p.samples [ [] ↦ completing | _ ↦ publishing ] } in
      let (out, c) = pop capacity fresh_snapshot p.capture in
      if not (ltb (length p.samples) batch_size) then full else elim out [
        | none ↦ full
        | some r ↦ record p { capture = c; samples = p.samples ++ (to_sample r ∷ []) }
      ]

  -- the count of failures that a batch reports: a new trial starts from zero
  abbrev pub failures : Pipeline D → Sample D → ℕ
  failures p first = if p.consumer_trial == first.trial_id then p.publication_failures else 0

  abbrev pub make_batch : Pipeline D → Sample D → List (Sample D) → Batch D
  make_batch p first rest = record {
    stamp = (back first rest).stamp;
    samples = first ∷ rest;
    dropped_samples = p.capture.published_drops;
    failed_publication_samples = failures p first;
  }

  -- the rest of the body of the outer loop; `first` is the front of the batch
  abbrev pub hand_over : Bool → Pipeline D → Sample D → List (Sample D) → Pipeline D
  hand_over taken p first rest = record p {
    consumed = p.consumed + length (first ∷ rest);
    consumer_trial = first.trial_id;
    publication_failures =
        if taken then failures p first else (failures p first + length (first ∷ rest)) % 2 ^ 64;
    place = looping;
    log = batch taken (make_batch p first rest) ∷ p.log;
  }

  unfoldable pub publish : Bool → Pipeline D → Pipeline D
  publish taken p = elim p.samples [
    | [] ↦ record p { place = completing }
    | first ∷ rest ↦ hand_over taken p first rest
  ]

  unfoldable pub complete : Pipeline D → Pipeline D
  complete p =
      let (out, c) = completion p.capture in
      elim out [
        | none ↦ record p { place = reporting }
        | some done ↦ record p {
          capture = c;
          pending_status = to_status done p.publication_failures;
          status_pending = true;
          place = reporting;
        }
      ]

  unfoldable pub report : Bool → Pipeline D → Pipeline D
  report taken p =
      if p.status_pending && taken
      then record p {
        status_pending = false;
        ready = true;
        place = waiting;
        log = status p.pending_status ∷ p.log;
      }
      else record p { place = waiting }

  -- one step of `drain`; from `waiting` the timer starts it
  unfoldable pub advance : Place → Bool → Pipeline D → Pipeline D
  advance waiting taken p = record p { consumed = 0; place = looping }
  advance looping taken p =
      if ltb p.consumed capacity
      then record p { samples = []; place = filling }
      else record p { place = completing }
  advance filling taken p = fill p
  advance publishing taken p = publish taken p
  advance completing taken p = complete p
  advance reporting taken p = report taken p

  unfoldable pub step : Pipeline D → Event D → Pipeline D
  step p (begins id) = (begin id p).1
  step p (sampled s) = sample s p
  step p (finishes completed) = finish completed p
  step p (ticks taken) = advance p.place taken p

  unfoldable pub run : Pipeline D → List (Event D) → Pipeline D
  run p [] = p
  run p (e ∷ es) = run (step p e) es
