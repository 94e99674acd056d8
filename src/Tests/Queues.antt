-- ===== src/Tests/Queues.antt =====
-- The capture ring with room for two records, and the command output.
use zero_force_controller.Common.{
  ℕ, ◌+◌, ◌≡◌, refl, true, false, none, some, List, [], ◌∷◌, ◌++◌, arith, length,
}
use zero_force_controller.Double.Fixed.{Fixed, fixed_double}
use zero_force_controller.Capture.{
  Capture, CaptureRecord, Call, begins, appends, finishes, pops, blank_record, begin, finish,
  append, pop, step,
}
use zero_force_controller.Capture.Queue.{contents, IsValid, all_stored, run, run_lem}
use zero_force_controller.Capture.Trial.{samples, trial_lem}
use zero_force_controller.Output.{CommandOutput, fresh_output, resolve, settle}
use zero_force_controller.Output.Hold.{resolve_all, resolve_frozen}

abbrev blank : CaptureRecord ℕ
blank = blank_record 0

abbrev empty : Capture ℕ
empty = record {
  records = blank ∷ blank ∷ [];
  read = 0;
  write = 0;
  published_drops = 0;
  terminal_pending = false;
  trial = 0;
  sequence = 0;
  drops = 0;
  running = false;
  last = blank;
  terminal = record { final = blank; dropped = 0; completed = false };
}

empty-IsValid : IsValid 2 0 empty
empty-IsValid = ground arith

abbrev calls : List (Call ℕ)
calls = begins 7 ∷ appends 10 ∷ appends 11 ∷ appends 12 ∷ pops ∷ appends 13 ∷ finishes true ∷ []

taken_out : (run 2 0 empty calls).0 ≡ record { trial_id = 7; sequence = 1; state = 10 } ∷ []
unfolding run step begin append finish pop
taken_out = refl

run_lem_example :
    IsValid 2 0 (run 2 0 empty calls).1
    × ((run 2 0 empty calls).0 ++ contents 2 0 (run 2 0 empty calls).1
        ≡ contents 2 0 empty ++ all_stored 2 0 empty calls)
run_lem_example = run_lem 2 0 empty calls empty-IsValid (omega arith)

abbrev during : List (Call ℕ)
during = appends 10 ∷ appends 11 ∷ appends 12 ∷ pops ∷ appends 13 ∷ []

starts : (begin 0 empty 7).0 ≡ true
unfolding begin
starts = refl

trial_lem_example :
    let c1 = (begin 0 empty 7).1 in
    let t = finish (run 2 0 c1 during).1 true in
    (t.terminal_pending ≡ true)
    × (t.terminal.completed ≡ true)
    × (t.terminal.final.trial_id ≡ 7)
    × (t.terminal.final.sequence ≡ samples during)
    × (t.terminal.dropped + length (all_stored 2 0 c1 during) ≡ samples during)
trial_lem_example = trial_lem 2 0 empty 7 during true empty-IsValid starts tt (omega arith)

abbrev simulated : CommandOutput Fixed
simulated = record fresh_output { finite_fault_hold = true }

abbrev metre : Fixed
metre = fixed_double.lit 1 0

held : (resolve simulated none metre).0 ≡ some metre
unfolding resolve settle
held = refl

resolve_frozen_example :
    (resolve (resolve_all (resolve simulated none metre).1 ((none, none) ∷ [])) none none).0
    ≡ (resolve simulated none metre).0
resolve_frozen_example =
    resolve_frozen simulated none metre ((none, none) ∷ []) none none refl refl (refl, tt) refl
