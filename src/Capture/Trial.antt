-- ===== src/Capture/Trial.antt =====
-- The accounts of one trial: what its terminal record says of the samples.
use zero_force_controller.Common.{
  ℕ, ◌+◌, ◌-◌, ◌^◌, ◌<◌, ◌≡◌, Bool, true, List, [], ◌∷◌, arith, length, length-append,
}
use zero_force_controller.Capture.{
  Capture, Call, begins, appends, finishes, pops, completes, begin, append, finish, pop, step,
}
use zero_force_controller.Capture.Ring.{length-window}
use zero_force_controller.Capture.Queue.{IsValid, stored, run, all_stored, step_lem}

-- the calls between the start and the end of a trial
abbrev pub IsDuring : {S : Type 0} → List (Call S) → Type 0
IsDuring [] = Unit {0}
IsDuring (appends s ∷ calls) = IsDuring calls
IsDuring (pops ∷ calls) = IsDuring calls
IsDuring (_ ∷ calls) = ⊥

abbrev pub samples : {S : Type 0} → List (Call S) → ℕ
samples [] = 0
samples (appends s ∷ calls) = samples calls + 1
samples (_ ∷ calls) = samples calls

module _ {S : Type 0} (capacity : ℕ) (blank : S) where
  -- The producer's counters in a trial with this identifier.
  record IsTrial (trial : ℕ) (c : Capture S) : Type 0 where
    on : c.running ≡ true
    same : c.trial ≡ trial
    last_trial : c.last.trial_id ≡ trial
    last_sequence : c.last.sequence ≡ c.sequence

  append-IsTrial :
      (trial : ℕ) (c : Capture S) (s : S)
      → IsValid capacity blank c
      → IsTrial trial c
      → c.sequence + 1 < 2 ^ 64
      → c.drops + 1 < 2 ^ 64
      → c.write < 2 ^ 64
      → let c' = (step capacity blank c (appends s)).1 in
        IsTrial trial c'
        × (c'.sequence ≡ c.sequence + 1)
        × (c'.drops + length (stored capacity blank c (appends s)) ≡ c.drops + 1)
  unfolding step append
  append-IsTrial trial c s v t q r w = ground (
    arith,
    length-window capacity (record { trial_id = 0; sequence = 0; state = blank }) c.records c.read
        (c.write - c.read),
  )

  pop-IsTrial :
      (trial : ℕ) (c : Capture S)
      → IsTrial trial c
      → let c' = (step capacity blank c pops).1 in
        IsTrial trial c' × (c'.sequence ≡ c.sequence) × (c'.drops ≡ c.drops)
  unfolding step pop
  pop-IsTrial trial c t = ground arith

  run-IsTrial :
      (trial : ℕ) (c : Capture S) (calls : List (Call S))
      → IsValid capacity blank c
      → IsTrial trial c
      → IsDuring calls
      → c.write + length calls < 2 ^ 64
      → c.sequence + length calls < 2 ^ 64
      → c.drops + length calls < 2 ^ 64
      → let c' = (run capacity blank c calls).1 in
        IsTrial trial c'
        × (c'.sequence ≡ c.sequence + samples calls)
        × (c'.drops + length (all_stored capacity blank c calls) ≡ c.drops + samples calls)
  unfolding run all_stored
  run-IsTrial trial c [] v t d w q r = ground arith
  run-IsTrial trial c (appends s ∷ calls) v t d w q r =
      let c1 = (step capacity blank c (appends s)).1 in
      ground (
        arith,
        append-IsTrial trial c s v t,
        step_lem capacity blank c (appends s) v,
        length-append (stored capacity blank c (appends s)) (all_stored capacity blank c1 calls),
        run-IsTrial trial c1 calls,
      )
  run-IsTrial trial c (pops ∷ calls) v t d w q r =
      let c1 = (step capacity blank c pops).1 in
      ground
        (arith, pop-IsTrial trial c t, step_lem capacity blank c pops v, run-IsTrial trial c1 calls)
  run-IsTrial trial c (begins _ ∷ calls) v t d w q r = absurd d
  run-IsTrial trial c (finishes _ ∷ calls) v t d w q r = absurd d
  run-IsTrial trial c (completes ∷ calls) v t d w q r = absurd d

  -- A trial that `begin` accepts, then any appends and pops in any order, then `finish`: the terminal
  -- record carries the trial's identifier, the number of samples as the last sequence number, and as
  -- drops exactly the samples that were not stored.
  pub trial_lem :
      (c : Capture S) (trial : ℕ) (calls : List (Call S)) (completed : Bool)
      → IsValid capacity blank c
      → (begin blank c trial).0 ≡ true
      → IsDuring calls
      → c.write + length calls < 2 ^ 64
      → let c1 = (begin blank c trial).1 in
        let t = finish (run capacity blank c1 calls).1 completed in
        (t.terminal_pending ≡ true)
        × (t.terminal.completed ≡ completed)
        × (t.terminal.final.trial_id ≡ trial)
        × (t.terminal.final.sequence ≡ samples calls)
        × (t.terminal.dropped + length (all_stored capacity blank c1 calls) ≡ samples calls)
  unfolding begin finish
  trial_lem c trial calls completed v b d w =
      let c1 = (begin blank c trial).1 in ground (arith, run-IsTrial trial c1 calls)
