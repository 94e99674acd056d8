-- ===== src/Diagnostics.antt =====
-- packages/zfc_ethercat_hardware/include/zfc_ethercat_hardware/diagnostics.hpp: `DiagnosticSink`, the
-- ring from the control thread to the thread that prints. Each shared access is one step, so a list of
-- events is an interleaving. What a push and a drain hold between two accesses is their stage. A
-- `DiagnosticRecord` is of any type here; its text is not modelled.
pub mod Ring
pub mod Pushes
pub mod Drains
pub mod Runs
use zero_force_controller.Common.{
  ℕ, ◌+◌, ◌%◌, Bool, List, [], ◌∷◌, ◌++◌, ◌==◌, get_or, set, replicate, if◌then◌else◌,
}
use zero_force_controller.Control.{increment}
use zero_force_controller.Capture.{difference}

-- `push`: it has seen the index of the reader, or it has stored its record.
pub data Producer (R : Type 0) : Type 0 where
  rests : Producer R
  checks : ℕ → R → Producer R
  stored : R → Producer R

-- `drain`: it looks for a record, has found one, or has printed it.
pub data Consumer : Type 0 where
  looks prints moves_on : Consumer

-- The sink, with its threads, what was taken in and printed, and the number of calls of `push`.
pub record Sink (R : Type 0) : Type 0 where
  pub records : List R
  pub read : ℕ
  pub write : ℕ
  pub dropped : ℕ
  pub producer : Producer R
  pub consumer : Consumer
  pub taken_in : List R
  pub printed : List R
  pub pushed : ℕ

abbrev pub sink_size : ℕ
sink_size = 4_096

pub data Event (R : Type 0) : Type 0 where
  pushes : R → Event R
  producer_steps consumer_steps : Event R

module _ {R : Type 0} where
  abbrev pub fresh : ℕ → R → Sink R
  fresh capacity blank = record {
    records = replicate capacity blank;
    read = 0;
    write = 0;
    dropped = 0;
    producer = rests;
    consumer = looks;
    taken_in = [];
    printed = [];
    pushed = 0;
  }

  -- There is one producer: it has no second call while one runs.
  abbrev pub begin_push : Producer R → R → Sink R → Sink R
  begin_push rests r s = record s { producer = checks s.read r; pushed = s.pushed + 1 }
  begin_push (checks seen r') r s = s
  begin_push (stored r') r s = s

  abbrev pub step_producer : ℕ → Producer R → Sink R → Sink R
  step_producer capacity rests s = s
  step_producer capacity (checks seen r) s =
      if difference s.write seen == capacity
      then record s { dropped = increment s.dropped; producer = rests }
      else record s { records = set s.records (s.write % capacity) r; producer = stored r }
  step_producer capacity (stored r) s = record s {
    write = increment s.write;
    producer = rests;
    taken_in = s.taken_in ++ (r ∷ []);
  }

module _ {R : Type 0} (capacity : ℕ) (blank : R) where
  abbrev pub step_consumer : Consumer → Sink R → Sink R
  step_consumer looks s = if s.read == s.write then s else record s { consumer = prints }
  step_consumer prints s = record s {
    printed = s.printed ++ (get_or s.records (s.read % capacity) blank ∷ []);
    consumer = moves_on;
  }
  step_consumer moves_on s = record s { read = increment s.read; consumer = looks }

  unfoldable pub step : Sink R → Event R → Sink R
  step s (pushes r) = begin_push s.producer r s
  step s producer_steps = step_producer capacity s.producer s
  step s consumer_steps = step_consumer s.consumer s

  abbrev pub run : Sink R → List (Event R) → Sink R
  run s [] = s
  run s (e ∷ es) = run (step s e) es
