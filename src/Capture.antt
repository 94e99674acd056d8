-- ===== src/Capture.antt =====
-- packages/zfc_interfaces/include/zfc_interfaces/capture.hpp: the ring between the control loop and
-- the publisher. There is one producer and one consumer, and each method publishes its effect by one
-- store to an index or a flag, so a method is one step here. Indices are `uint64_t`.
pub mod Ring
pub mod Queue
pub mod Trial
use zero_force_controller.Common.{
  ℕ, ◌+◌, ◌-◌, ◌%◌, ◌^◌, Bool, true, false, not, ◌||◌, Option, none, some, List, [], ◌∷◌, ◌==◌,
  get_or, set, if◌then◌else◌,
}
use zero_force_controller.Control.{increment}

-- `a - b` on `uint64_t`
abbrev pub difference : ℕ → ℕ → ℕ
difference a b = (a + 2 ^ 64 - b) % 2 ^ 64

pub record CaptureRecord (S : Type 0) : Type 0 where
  pub trial_id : ℕ
  pub sequence : ℕ
  pub state : S

pub record Completion (S : Type 0) : Type 0 where
  pub final : CaptureRecord S
  pub dropped : ℕ
  pub completed : Bool

pub record Capture (S : Type 0) : Type 0 where
  pub records : List (CaptureRecord S)
  pub read : ℕ
  pub write : ℕ
  pub published_drops : ℕ
  pub terminal_pending : Bool
  pub trial : ℕ
  pub sequence : ℕ
  pub drops : ℕ
  pub running : Bool
  pub last : CaptureRecord S
  pub terminal : Completion S

-- the calls of the producer and of the consumer
pub data Call (S : Type 0) : Type 0 where
  begins : ℕ → Call S
  appends : S → Call S
  finishes : Bool → Call S
  pops completes : Call S

module _ {S : Type 0} where
  abbrev pub blank_record : S → CaptureRecord S
  blank_record blank = record { trial_id = 0; sequence = 0; state = blank }

  abbrev pub next_record : Capture S → S → CaptureRecord S
  next_record c s = record { trial_id = c.trial; sequence = increment c.sequence; state = s }

  -- `blank` is `Snapshot{}`.
  unfoldable pub begin : S → Capture S → ℕ → Bool × Capture S
  begin blank c trial = if c.running || c.terminal_pending || trial == 0 then (false, c) else (
    true,
    record c {
      trial = trial;
      sequence = 0;
      drops = 0;
      published_drops = 0;
      last = record { trial_id = trial; sequence = 0; state = blank };
      running = true;
    },
  )

  unfoldable pub append : ℕ → Capture S → S → Capture S
  append capacity c s =
      if not c.running
      then c
      else (let r = next_record c s in
          let counted = record c { last = r; sequence = increment c.sequence } in
          if difference c.write c.read == capacity
          then record counted { drops = increment c.drops; published_drops = increment c.drops }
          else record counted {
            records = set c.records (c.write % capacity) r;
            write = increment c.write;
          })

  unfoldable pub finish : Capture S → Bool → Capture S
  finish c completed = if not c.running then c else record c {
    terminal = record { final = c.last; dropped = c.drops; completed = completed };
    running = false;
    terminal_pending = true;
  }

  -- the record that goes through `out`, if there is one
  unfoldable pub pop : ℕ → S → Capture S → Option (CaptureRecord S) × Capture S
  pop capacity blank c = if c.read == c.write then (none, c) else (
    some (get_or c.records (c.read % capacity) (blank_record blank)),
    record c { read = increment c.read },
  )

  unfoldable pub completion : Capture S → Option (Completion S) × Capture S
  completion c =
      if not c.terminal_pending || not (c.read == c.write)
      then (none, c)
      else (some c.terminal, record c { terminal_pending = false })

  abbrev pub taken : Option (CaptureRecord S) → List (CaptureRecord S)
  taken none = []
  taken (some r) = r ∷ []

  -- one call, with the records that it takes out
  unfoldable pub step : ℕ → S → Capture S → Call S → List (CaptureRecord S) × Capture S
  step capacity blank c (begins trial) = ([], (begin blank c trial).1)
  step capacity blank c (appends s) = ([], append capacity c s)
  step capacity blank c (finishes completed) = ([], finish c completed)
  step capacity blank c pops = let (out, c') = pop capacity blank c in (taken out, c')
  step capacity blank c completes = ([], (completion c).1)
