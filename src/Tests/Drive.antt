-- ===== src/Tests/Drive.antt =====
-- The controllers and the publisher: activations, cycles, and a drain between them.
use zero_force_controller.Common.{
  ℕ, zero, suc, ◌≡◌, refl, ap, true, false, List, [], ◌∷◌, ◌++◌, arith, length,
}
use zero_force_controller.Common.Int.{pos, ◌-ℤ◌}
use zero_force_controller.Double.{nought}
use zero_force_controller.Double.Fixed.{Fixed, fixed_double, Fixed-IsIeee}
use zero_force_controller.Control.{Snapshot, fresh_snapshot, bounds_valid, contains, inputs_finite}
use zero_force_controller.ZeroForce.{
  ZeroForceSettings, ZeroForceLogic, settings_valid, settings_finite, activate, accepts, reset,
}
use zero_force_controller.Capture
use zero_force_controller.Capture.{Capture, CaptureRecord, blank_record, pop, completion}
use zero_force_controller.Output.{fresh_output}
use zero_force_controller.Telemetry.{
  Pipeline, Event, begins, sampled, finishes, ticks, waiting, capacity, run, begin,
}
use zero_force_controller.Telemetry.Message.{TrialStatus}
use zero_force_controller.Telemetry.Log.{handed, unsent, queued, IsFresh}
use zero_force_controller.Telemetry.Delivery.{Sized, all_stored, run-Delivers}
use zero_force_controller.Telemetry.Handshake.{Alternates, IsInTurn, run-IsInTurn}
use zero_force_controller.Telemetry.Accounts.{Accurate, Rising}
use zero_force_controller.Controller.{Controller, on_activate, cycles}
use zero_force_controller.Controller.Logics.{zero_force_law, zero_force-IsSound}
use zero_force_controller.Controller.Activation.{IsActivation, on_activate-IsActivation}
use zero_force_controller.Controller.Cycle.{IsCommanded, activated-IsCommanded}
use zero_force_controller.Controller.Session.{Move, activates, deactivates, drains, acts, acts_lem}
use zero_force_controller.Tests.Logic.{pushed, settings, logic, at}

abbrev pub blank : CaptureRecord (Snapshot Fixed)
blank = blank_record fresh_snapshot

unfoldable copies : ℕ → List (CaptureRecord (Snapshot Fixed))
copies zero = []
copies (suc n) = blank ∷ copies n

length-copies : (n : ℕ) → length (copies n) ≡ n
unfolding copies
length-copies zero = refl
length-copies (suc n) = ap suc (length-copies n)

abbrev ring : Capture (Snapshot Fixed)
ring = record {
  records = copies capacity;
  read = 0;
  write = 0;
  published_drops = 0;
  terminal_pending = false;
  trial = 0;
  sequence = 0;
  drops = 0;
  running = false;
  last = blank;
  terminal = record { final = blank; dropped = 0; completed = false };
}

abbrev pub no_status : TrialStatus
no_status = record {
  stamp = pos 0;
  trial_id = 0;
  final_sequence = 0;
  dropped_samples = 0;
  failed_publication_samples = 0;
  phase = 0;
  fault_code = 0;
  completed = false;
  successful = false;
  capture_complete = false;
}

abbrev pipeline : Pipeline Fixed
pipeline = record {
  capture = ring;
  ready = true;
  consumer_trial = 0;
  publication_failures = 0;
  status_pending = false;
  pending_status = no_status;
  samples = [];
  consumed = 0;
  place = waiting;
  log = [];
}

pipeline-IsFresh : IsFresh pipeline
pipeline-IsFresh = record {
  valid = omega (arith, length-copies capacity);
  empty = refl;
  stopped = refl;
  completed = refl;
  unused = refl;
  silent = refl;
  waits = refl;
  ready = refl;
  reported = refl;
  failures = refl;
}

-- A trial of one sample, and a drain that hands it over, finds the ring empty and reports.
abbrev one_trial : List (Event Fixed)
one_trial =
    begins 1
    ∷ sampled fresh_snapshot
    ∷ finishes true
    ∷ ticks true
    ∷ ticks true
    ∷ ticks true
    ∷ ticks true
    ∷ ticks false
    ∷ ticks true
    ∷ ticks true
    ∷ ticks true
    ∷ ticks true
    ∷ []

run-Delivers_example :
    let q = run pipeline one_trial in
    (handed q.log ++ (unsent q.place q.samples ++ queued q) ≡ all_stored pipeline one_trial)
    × Sized q.log
run-Delivers_example = run-Delivers pipeline one_trial pipeline-IsFresh (omega arith)

run-IsInTurn_example : IsInTurn (run pipeline one_trial)
run-IsInTurn_example = run-IsInTurn pipeline one_trial pipeline-IsFresh

abbrev controller : Controller Fixed (ZeroForceLogic Fixed)
controller = record {
  logic = logic;
  output = fresh_output;
  telemetry = pipeline;
  last_trial = 0;
  active = false;
  command = nought;
}

on_activate-IsActivation_example :
    IsActivation zero_force_law controller
      (at 0)
      (on_activate zero_force_law settings 0 (at 0) controller).0
      (on_activate zero_force_law settings 0 (at 0) controller).1
on_activate-IsActivation_example =
    on_activate-IsActivation zero_force_law settings 0 (at 0) controller

activates_first : (on_activate zero_force_law settings 0 (at 0) controller).0 ≡ true
unfolding on_activate begin activate accepts reset settings_valid settings_finite bounds_valid
    contains inputs_finite Capture.begin ◌-ℤ◌
activates_first = refl

activated-IsCommanded_example :
    let c = (on_activate zero_force_law settings 0 (at 0) controller).1 in
    let r = cycles zero_force_law (at 1) (pushed 2 ∷ []) c in
    IsCommanded zero_force_law (zero_force-IsSound Fixed-IsIeee) r.1 r.0
activated-IsCommanded_example =
    activated-IsCommanded zero_force_law (zero_force-IsSound Fixed-IsIeee) settings 0 (at 0) (at 1)
      (pushed 2 ∷ []) controller

abbrev life : List (Move Fixed (ZeroForceSettings Fixed))
life =
    activates settings 0 (at 0)
    ∷ drains true
    ∷ Move.cycles (at 1)
    ∷ drains true
    ∷ drains true
    ∷ deactivates (at 2)
    ∷ drains true
    ∷ []

acts_lem_example :
    let log = (acts zero_force_law controller life).telemetry.log in
    Alternates log × Rising log × Accurate log
acts_lem_example = acts_lem zero_force_law controller life pipeline-IsFresh (omega arith)
