-- ===== src/Telemetry/Handshake.antt =====
-- The order of trials: a trial begins only when the last has been drained and reported.
use zero_force_controller.Common.{
  ℕ, ◌≡◌, refl, ap, ◌∙◌, Bool, true, false, not, List, [], ◌∷◌, arith,
}
use zero_force_controller.Double.{Double}
use zero_force_controller.Control.{Snapshot}
use zero_force_controller.Capture
use zero_force_controller.Capture.{Capture, append, pop, completion}
use zero_force_controller.Telemetry.{
  Pipeline, Event, begins, sampled, finishes, ticks, Entry, begun, batch, status, Place, waiting,
  looping, filling, publishing, completing, reporting, begin, sample, finish, fill, publish,
  complete, report, advance, step, run,
}
use zero_force_controller.Telemetry.Log.{unsent, IsFresh}

module _ {D : Type 0} ⦃d : Double D⦄ where
  -- whether the newest trial of a log has no status yet
  abbrev pub is_open : List (Entry D) → Bool
  is_open [] = false
  is_open (begun _ ∷ l) = true
  is_open (batch _ _ ∷ l) = is_open l
  is_open (status _ ∷ l) = false

  -- A trial begins behind the status of the last; a batch and a status belong to an open trial.
  abbrev pub Alternates : List (Entry D) → Type 0
  Alternates [] = Unit {0}
  Alternates (begun _ ∷ l) = (is_open l ≡ false) × Alternates l
  Alternates (batch _ _ ∷ l) = (is_open l ≡ true) × Alternates l
  Alternates (status _ ∷ l) = (is_open l ≡ true) × Alternates l

  -- nothing is left of the last trial
  pub record IsDrained (p : Pipeline D) : Type 0 where
    pub stopped : p.capture.running ≡ false
    pub completed : p.capture.terminal_pending ≡ false
    pub empty : p.capture.read ≡ p.capture.write
    pub sent : unsent p.place p.samples ≡ []

  pub record IsOrderly (p : Pipeline D) : Type 0 where
    pub terminal : p.capture.terminal_pending ≡ true → p.capture.running ≡ false
    pub pending : p.status_pending ≡ true → (p.ready ≡ false) × IsDrained p
    pub at_rest : p.ready ≡ true → IsDrained p
    pub opened : is_open p.log ≡ not p.ready
    pub alternates : Alternates p.log

  begin-IsOrderly : (p : Pipeline D) (id : ℕ) → IsOrderly p → IsOrderly (begin id p).1
  unfolding begin Capture.begin
  begin-IsOrderly p id o = ground arith

  sample-IsOrderly : (p : Pipeline D) (s : Snapshot D) → IsOrderly p → IsOrderly (sample s p)
  unfolding sample append
  sample-IsOrderly p s o = ground arith

  finish-IsOrderly : (p : Pipeline D) (c : Bool) → IsOrderly p → IsOrderly (finish c p)
  unfolding finish Capture.finish
  finish-IsOrderly p c o = ground arith

  advance-IsOrderly :
      (at : Place) (taken : Bool) (p : Pipeline D)
      → p.place ≡ at
      → IsOrderly p
      → IsOrderly (advance at taken p)
  unfolding advance
  advance-IsOrderly waiting taken p e o = ground arith
  advance-IsOrderly looping taken p e o = ground arith
  advance-IsOrderly filling taken p e o = unfold fill pop in ground arith
  advance-IsOrderly publishing taken p e o = unfold publish in ground arith
  advance-IsOrderly completing taken p e o = unfold complete completion in ground arith
  advance-IsOrderly reporting taken p e o = unfold report in ground arith

  pub step-IsOrderly : (p : Pipeline D) (e : Event D) → IsOrderly p → IsOrderly (step p e)
  unfolding step
  step-IsOrderly p (begins id) o = begin-IsOrderly p id o
  step-IsOrderly p (sampled s) o = sample-IsOrderly p s o
  step-IsOrderly p (finishes c) o = finish-IsOrderly p c o
  step-IsOrderly p (ticks taken) o = advance-IsOrderly p.place taken p refl o

  pub fresh-IsOrderly : (p : Pipeline D) → IsFresh p → IsOrderly p
  fresh-IsOrderly p f = ground arith

  pub run-IsOrderly : (p : Pipeline D) (es : List (Event D)) → IsOrderly p → IsOrderly (run p es)
  unfolding run
  run-IsOrderly p [] o = o
  run-IsOrderly p (e ∷ es) o = run-IsOrderly (step p e) es (step-IsOrderly p e o)

  begin_waits : (p : Pipeline D) (id : ℕ) → (begin id p).0 ≡ true → p.ready ≡ true
  unfolding begin
  begin_waits p id h = ground arith

  -- The log of a pipeline, and what it takes for a trial to begin.
  pub record IsInTurn (p : Pipeline D) : Type 0 where
    pub alternates : Alternates p.log
    pub opened : is_open p.log ≡ not p.ready
    pub drained : (id : ℕ) → (begin id p).0 ≡ true → IsDrained p × (is_open p.log ≡ false)

  -- From a fresh pipeline, in any interleaving of the controller's calls with the steps of the drain,
  -- whatever the topics take, the log is a sequence of trials: a trial begins behind the status of the
  -- last one, batches and the status stand in an open trial, and a trial is open exactly while the
  -- pipeline is not ready. If a trial can begin at the end, none runs, the ring is empty, no sample is
  -- on its way, and the last trial has had its status.
  pub run-IsInTurn : (p : Pipeline D) (es : List (Event D)) → IsFresh p → IsInTurn (run p es)
  run-IsInTurn p es f =
      let o = run-IsOrderly p es (fresh-IsOrderly p f) in
      record {
        alternates = o.alternates;
        opened = o.opened;
        drained = λ id h. let r = begin_waits (run p es) id h in (o.at_rest r, o.opened ∙ ap not r);
      }
