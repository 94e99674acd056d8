-- ===== src/Tests/Printing.antt =====
-- Three records through a sink with room for two: one is printed while the second is pushed, and the
-- third finds the sink full as it was seen.
use zero_force_controller.Common.{ℕ, ◌+◌, ◌≡◌, refl, List, [], ◌∷◌, length, replicate, arith}
use zero_force_controller.Diagnostics.{
  Event, pushes, producer_steps, consumer_steps, rests, fresh, step, run,
}
use zero_force_controller.Diagnostics.Runs.{printed_all}

abbrev interleaved : List (Event ℕ)
interleaved =
    pushes 7
    ∷ producer_steps
    ∷ producer_steps
    ∷ pushes 8
    ∷ producer_steps
    ∷ consumer_steps
    ∷ producer_steps
    ∷ pushes 9
    ∷ consumer_steps
    ∷ consumer_steps
    ∷ producer_steps
    ∷ []

over : (run 2 0 (fresh 2 0) interleaved).producer ≡ rests
unfolding step
over = refl

dropped_one : (run 2 0 (fresh 2 0) interleaved).dropped ≡ 1
unfolding step
dropped_one = refl

printed_all_example :
    let s = run 2 0 (fresh 2 0) interleaved in
    ((run 2 0 s (replicate 6 consumer_steps)).printed ≡ s.taken_in)
    × (s.dropped + length s.taken_in ≡ s.pushed)
printed_all_example = printed_all 2 0 (omega arith) interleaved 6 (omega arith) over (omega arith)
