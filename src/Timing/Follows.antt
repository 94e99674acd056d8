-- ===== src/Timing/Follows.antt =====
-- The trace of packages/zfc_timing follows the journal: each call on both sides.
use zero_force_controller.Common.{
  ℕ, ◌+◌, ◌%◌, ◌^◌, ◌<◌, ◌≡◌, ◌≢◌, refl, inl, inr, Option, none, some, List, [], ◌∷◌, arith, length,
  set, get_or-set_self, ◌==◌, Bool-cases, ==_iff,
}
use zero_force_controller.Common.Int.{ℤ}
use zero_force_controller.Timing.Fields.{blank, put, sleep_exit, commit_exit}
use zero_force_controller.Timing.{
  Storage, Cycle, Recorder, Buffer, begin, append, closed, finish, after_sleep, amend,
}
use zero_force_controller.Timing.Events.{
  Event, begins, marks, values, maps, spans, finishes, sleeps, in_thread, step, run,
}
use zero_force_controller.Timing.Journal.{Journal, lost, enter, wake, note_event, journal}
use zero_force_controller.Timing.Stored.{IsStored, full_lem, room_lem, amend_lem}

abbrev pub recorder : Storage → Buffer → Cycle → Option ℕ → Recorder
recorder storage b thread last = record {
  storage = record storage { buffer = some b };
  thread = thread;
  last_committed = last;
}

-- a buffer and a place that stand for the cycles of the journal
pub record Follows (capacity : ℕ) (storage : Storage) (r : Recorder) (j : Journal) : Type 0 where
  pub buffer : Buffer
  pub last : Option ℕ
  pub shape : r ≡ recorder storage buffer j.thread last
  pub is_stored : IsStored capacity buffer last j.cycles

finish_lem :
    (capacity : ℕ) (storage : Storage) (b : Buffer) (last : Option ℕ) (j : Journal) (raw end : ℤ)
    → IsStored capacity b last j.cycles
    → Follows capacity storage
        (finish raw end (recorder storage b j.thread last))
        (enter capacity raw end j)
unfolding finish append
finish_lem capacity storage b last j raw end s =
    let c = closed (lost capacity (length j.cycles)) raw j.thread in
    let r = put c.current commit_exit end in
    elim (Bool-cases j.thread.in_cycle) [
      | inl running ↦ elim (Bool-cases (b.size == b.capacity)) [
        | inl full ↦ record {
          buffer = record b { drops = (b.drops + 1) % 2 ^ 64 };
          last = none;
          shape = rw (running, full, s.drops) refl;
          is_stored =
              simp running
                (full_lem capacity b last j.cycles r s ((==_iff b.size b.capacity).0 full));
        }
        | inr room ↦
            let n : b.size ≢ b.capacity = λ e. ground arith in
            let within : b.size < length b.data_ = omega (arith, n, s.size, s.bound, s.room) in
            record {
              buffer = record b {
                data_ = set (set b.data_ b.size c.current) b.size r;
                size = b.size + 1;
              };
              last = some b.size;
              shape =
                  simp
                    (running, room, s.drops, get_or-set_self b.data_ b.size c.current blank within)
                    refl;
              is_stored = simp running (room_lem capacity b last j.cycles c.current r s n);
            }
      ]
      | inr idle ↦ record { buffer = b; last = last; shape = rw idle refl; is_stored = rw idle s }
    ]

sleep_lem :
    (capacity : ℕ) (storage : Storage) (b : Buffer) (last : Option ℕ) (j : Journal) (raw : ℤ)
    → IsStored capacity b last j.cycles
    → Follows capacity storage (after_sleep raw (recorder storage b j.thread last)) (wake raw j)
unfolding after_sleep
sleep_lem capacity storage b last j raw s = record {
  buffer = amend last sleep_exit raw b;
  last = last;
  shape = refl;
  is_stored = amend_lem capacity b last j.cycles raw s;
}

step_lem :
    (profile_level capacity : ℕ) (storage : Storage) (b b0 : Buffer) (last : Option ℕ) (j : Journal)
    (e : Event)
    → IsStored capacity b last j.cycles
    → Follows capacity storage
        (step profile_level (recorder storage b j.thread last) e)
        (note_event profile_level capacity (record storage { buffer = some b0 }) j e)
unfolding step note_event in_thread begin
step_lem profile_level capacity storage b b0 last j (finishes raw end) s =
    finish_lem capacity storage b last j raw end s
step_lem profile_level capacity storage b b0 last j (sleeps raw) s =
    sleep_lem capacity storage b last j raw s
step_lem profile_level capacity storage b b0 last j (begins raw mono processor) s = record {
  buffer = b;
  last = last;
  shape = refl;
  is_stored = s;
}
step_lem profile_level capacity storage b b0 last j (marks f v) s = record {
  buffer = b;
  last = last;
  shape = refl;
  is_stored = s;
}
step_lem profile_level capacity storage b b0 last j (values f v) s = record {
  buffer = b;
  last = last;
  shape = refl;
  is_stored = s;
}
step_lem profile_level capacity storage b b0 last j (maps d m n o) s = record {
  buffer = b;
  last = last;
  shape = refl;
  is_stored = s;
}
step_lem profile_level capacity storage b b0 last j (spans f v w) s = record {
  buffer = b;
  last = last;
  shape = refl;
  is_stored = s;
}

-- the buffer behind any calls
pub run_lem :
    (profile_level capacity : ℕ) (storage : Storage) (b b0 : Buffer) (last : Option ℕ) (j : Journal)
    (es : List Event)
    → IsStored capacity b last j.cycles
    → Follows capacity storage
        (run profile_level (recorder storage b j.thread last) es)
        (journal profile_level capacity (record storage { buffer = some b0 }) j es)
run_lem profile_level capacity storage b b0 last j [] s = record {
  buffer = b;
  last = last;
  shape = refl;
  is_stored = s;
}
run_lem profile_level capacity storage b b0 last j (e ∷ es) s =
    let f = step_lem profile_level capacity storage b b0 last j e s in
    rw f.shape (
      run_lem profile_level capacity storage f.buffer b0 f.last
        (note_event profile_level capacity (record storage { buffer = some b0 }) j e) es
        f.is_stored)
