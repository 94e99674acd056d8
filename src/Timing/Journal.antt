-- ===== src/Timing/Journal.antt =====
-- The specification of the trace of packages/zfc_timing: every cycle that was finished, in order,
-- without a bound. The count of lost cycles in a record is a matter of the bound alone.
use zero_force_controller.Common.{
  ℕ, ◌-◌, ◌%◌, ◌^◌, false, not, List, [], ◌∷◌, ◌++◌, length, get_or, set, if◌then◌else◌,
}
use zero_force_controller.Common.Int.{ℤ}
use zero_force_controller.Timing.Fields.{Record, blank, put, sleep_exit, commit_exit}
use zero_force_controller.Timing.{Storage, Cycle, fresh_cycle, closed}
use zero_force_controller.Timing.Events.{Event, finishes, sleeps, in_thread}

pub record Journal : Type 0 where
  pub thread : Cycle
  pub cycles : List Record

abbrev pub empty : Journal
empty = record { thread = fresh_cycle; cycles = [] }

-- how many of `n` cycles a buffer of `capacity` has lost, as a `uint64_t`
abbrev pub lost : ℕ → ℕ → ℕ
lost capacity n = (n - capacity) % 2 ^ 64

abbrev pub enter : ℕ → ℤ → ℤ → Journal → Journal
enter capacity raw end j =
    if not j.thread.in_cycle
    then j
    else (let c = closed (lost capacity (length j.cycles)) raw j.thread in
        record {
          thread = record c { in_cycle = false };
          cycles = j.cycles ++ (put c.current commit_exit end ∷ []);
        })

-- the last cycle learns when its sleep ended
abbrev pub wake : ℤ → Journal → Journal
wake raw j = record j {
  cycles =
      set j.cycles (length j.cycles - 1)
        (put (get_or j.cycles (length j.cycles - 1) blank) sleep_exit raw);
}

unfoldable pub note_event : ℕ → ℕ → Storage → Journal → Event → Journal
note_event profile_level capacity storage j (finishes raw end) = enter capacity raw end j
note_event profile_level capacity storage j (sleeps raw) = wake raw j
note_event profile_level capacity storage j e = record j {
  thread = in_thread profile_level storage e j.thread;
}

abbrev pub journal : ℕ → ℕ → Storage → Journal → List Event → Journal
journal profile_level capacity storage j [] = j
journal profile_level capacity storage j (e ∷ es) =
    journal profile_level capacity storage (note_event profile_level capacity storage j e) es
