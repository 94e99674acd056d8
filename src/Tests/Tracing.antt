-- ===== src/Tests/Tracing.antt =====
-- Three cycles, the last one without a sleep, in a trace with room for two.
use zero_force_controller.Common.{
  take, ℕ, ◌≡◌, refl, true, false, some, List, [], ◌∷◌, ◌++◌, ◌+◌, none, min, length, arith,
}
use zero_force_controller.Common.Int.{pos}
use zero_force_controller.Timing.Fields.{wc}
use zero_force_controller.Timing.{Environment, absent, parsed, env_integer, initialize, fresh}
use zero_force_controller.Timing.Events.{
  Event, values, sleeps, enter_read, leave_read, enter_write, leave_write, flush, header,
}
use zero_force_controller.Timing.Journal.{lost}
use zero_force_controller.Timing.Trace.{begun, all_well, traced, all_cycles, flush_lem}

abbrev tracing : Environment
tracing = record { path = some (116 ∷ []); capacity = parsed (pos 2) true; run_number = absent }

-- a cycle that starts at a time, and has a working counter
abbrev cycle_at : ℕ → ℕ → List Event
cycle_at t counter =
    enter_read false (pos t) (pos t) (pos 1) (pos (t + 1))
    ++ (values wc (pos counter) ∷ leave_read (pos (t + 2)))
    ++ enter_write (pos (t + 3))
    ++ leave_write false (pos (t + 4)) (pos (t + 5)) (pos (t + 6))

abbrev three_cycles : List Event
three_cycles =
    cycle_at 100 3 ++ (sleeps (pos 200) ∷ cycle_at 200 2) ++ (sleeps (pos 300) ∷ cycle_at 300 1)

capacity_two : env_integer tracing.capacity (pos 180_000) ≡ some (pos 2)
unfolding env_integer
capacity_two = refl

run_zero : env_integer tracing.run_number (pos 0) ≡ some (pos 0)
unfolding env_integer
run_zero = refl

flush_lem_example :
    let cycles = all_cycles 1 2 (begun (116 ∷ []) 2 (pos 0)) three_cycles in
    ((initialize tracing fresh).0 ≡ true)
    × ((flush 1 all_well (traced 1 tracing three_cycles)).0
        ≡ some (header 1 (min (length cycles) 2) (lost 2 (length cycles)), take 2 cycles))
    × ((flush 1 all_well (flush 1 all_well (traced 1 tracing three_cycles)).1).0 ≡ none)
flush_lem_example =
    flush_lem 1 tracing 116 [] 2 (pos 0) three_cycles all_well refl capacity_two (omega arith)
      (omega arith) run_zero
