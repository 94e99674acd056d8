-- ===== src/Telemetry/Delivery.antt =====
-- What the topics are handed: every sample that the ring stored, once and in order.
use mathlib.Core.List.{append-nil, append_assoc}
use zero_force_controller.Common.{
  ◌+◌, ◌-◌, ◌^◌, ◌≤◌, ◌<◌, ◌≡◌, refl, ap, sym, ◌∙◌, Bool, List, [], ◌∷◌, ◌++◌, map, arith, length,
  length-append,
}
use zero_force_controller.Double.{Double}
use zero_force_controller.Control.{fresh_snapshot}
use zero_force_controller.Capture
use zero_force_controller.Capture.{Capture, Call, append, pop, completion, taken}
use zero_force_controller.Telemetry.{
  Pipeline, Event, begins, sampled, finishes, ticks, Entry, batch, Place, waiting, looping, filling,
  publishing, completing, reporting, capacity, batch_size, begin, sample, finish, fill, publish,
  complete, report, advance, step, run,
}
use zero_force_controller.Telemetry.Message.{Sample, to_sample}
use zero_force_controller.Telemetry.Log.{
  handed, unsent, queued, outstanding, stored_by, IsPiped, IsFresh,
}
use zero_force_controller.Telemetry.Passage.{step_delivers}

module _ {D : Type 0} ⦃d : Double D⦄ where
  -- A batch has at least one sample and at most 256.
  abbrev pub Sized : List (Entry D) → Type 0
  Sized [] = Unit {0}
  Sized (batch _ b ∷ l) = (0 < length b.samples) × (length b.samples ≤ batch_size) × Sized l
  Sized (_ ∷ l) = Sized l

  abbrev IsSized : Pipeline D → Type 0
  IsSized p = (length (unsent p.place p.samples) ≤ batch_size) × Sized p.log

  advance-IsSized :
      (at : Place) (taken : Bool) (p : Pipeline D)
      → p.place ≡ at
      → IsSized p
      → IsSized (advance at taken p)
  unfolding advance
  advance-IsSized waiting taken p e v = ground arith
  advance-IsSized looping taken p e v = ground arith
  advance-IsSized filling taken p e v =
      unfold fill in
      ground (
        arith,
        length-append p.samples
            (map to_sample (Capture.taken (pop capacity fresh_snapshot p.capture).0)),
      )
  advance-IsSized publishing taken p e v = unfold publish in ground arith
  advance-IsSized completing taken p e v = unfold complete in ground arith
  advance-IsSized reporting taken p e v = unfold report in ground arith

  step-IsSized : (p : Pipeline D) (e : Event D) → IsSized p → IsSized (step p e)
  unfolding step
  step-IsSized p (begins id) v = unfold begin in ground arith
  step-IsSized p (sampled s) v = unfold sample in ground arith
  step-IsSized p (finishes c) v = unfold finish in ground arith
  step-IsSized p (ticks taken) v = advance-IsSized p.place taken p refl v

  unfoldable pub all_stored : Pipeline D → List (Event D) → List (Sample D)
  all_stored p [] = []
  all_stored p (e ∷ es) = stored_by p e ++ all_stored (step p e) es

  run_delivers :
      (p : Pipeline D) (es : List (Event D))
      → IsPiped p
      → IsSized p
      → p.capture.write + length es < 2 ^ 64
      → Sized (run p es).log × (outstanding (run p es) ≡ outstanding p ++ all_stored p es)
  unfolding run all_stored
  run_delivers p [] v b w = (b.1, sym (append-nil (outstanding p)))
  run_delivers p (e ∷ es) v b w =
      let (v', w', o) = step_delivers p e v (omega arith) in
      let (b', o') = run_delivers (step p e) es v' (step-IsSized p e b) (omega arith) in
      (b', o' ∙ rw o (append_assoc (outstanding p) _ _))

  fresh_outstanding : (p : Pipeline D) → IsFresh p → (outstanding p ≡ []) × IsSized p
  fresh_outstanding p f =
      let none_left : p.capture.write - p.capture.read ≡ 0 = omega arith in
      rw (f.silent, f.waits, none_left) (refl, (omega arith, tt))

  -- For a pipeline that starts fresh and any interleaving of the controller's calls with the steps of
  -- the drain that stays below 2 ^ 64 records, whatever the topics take: the samples of the batches
  -- that were handed over, followed by those on their way, are exactly the samples that the ring
  -- stored, in order; and a batch has at least one sample and at most 256.
  pub run-Delivers :
      (p : Pipeline D) (es : List (Event D))
      → IsFresh p
      → p.capture.write + length es < 2 ^ 64
      → let q = run p es in
        (handed q.log ++ (unsent q.place q.samples ++ queued q) ≡ all_stored p es) × Sized q.log
  run-Delivers p es f w =
      let (nothing, sized) = fresh_outstanding p f in
      let (b, o) = run_delivers p es f.valid sized w in
      (o ∙ ap (λ o. o ++ all_stored p es) nothing, b)
