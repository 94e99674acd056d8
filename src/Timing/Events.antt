-- ===== src/Timing/Events.antt =====
-- A run of the trace of packages/zfc_timing/src/cycle_timing.cpp: the calls of the running thread in
-- their order, and the file that `flush` writes behind it.
use zero_force_controller.Common.{
  take, ℕ, ◌*◌, ◌++◌, Bool, ◌&&◌, Option, none, some, List, [], ◌∷◌, if◌then◌else◌,
}
use zero_force_controller.Common.Int.{ℤ, pos}
use zero_force_controller.Timing.Fields.{
  Record, Field, field_count, hardware_read_entry, hardware_read_exit, hardware_write_entry,
  hardware_write_exit,
}
use zero_force_controller.Timing.{
  Storage, Cycle, Recorder, Buffer, begin, mark, value, map_system_deadline, close_span, finish,
  after_sleep,
}

-- the calls, with what the clocks answer
pub data Event : Type 0 where
  begins : ℤ → ℤ → ℤ → Event
  marks values : Field → ℤ → Event
  maps : ℤ → ℤ → ℤ → ℤ → Event
  spans : Field → ℤ → ℤ → Event
  finishes : ℤ → ℤ → Event
  sleeps : ℤ → Event

-- the calls that touch the cycle of the thread alone
unfoldable pub in_thread : ℕ → Storage → Event → Cycle → Cycle
in_thread profile_level storage (begins raw mono processor) c =
    begin profile_level storage raw mono processor c
in_thread profile_level storage (marks f now) c = mark f now c
in_thread profile_level storage (values f v) c = value f v c
in_thread profile_level storage (maps deadline before system after) c =
    map_system_deadline deadline before system after c
in_thread profile_level storage (spans f start now) c = close_span f start now c
in_thread profile_level storage (finishes raw end) c = c
in_thread profile_level storage (sleeps raw) c = c

abbrev pub threaded : ℕ → Recorder → Event → Recorder
threaded profile_level r e = record r { thread = in_thread profile_level r.storage e r.thread }

unfoldable pub step : ℕ → Recorder → Event → Recorder
step profile_level r (finishes raw end) = finish raw end r
step profile_level r (sleeps raw) = after_sleep raw r
step profile_level r e = threaded profile_level r e

abbrev pub run : ℕ → Recorder → List Event → Recorder
run profile_level r [] = r
run profile_level r (e ∷ es) = run profile_level (step profile_level r e) es

-- `HardwareRead` and `HardwareWrite`: what the start and the end of their scopes call
abbrev pub enter_read : Bool → ℤ → ℤ → ℤ → ℤ → List Event
enter_read managed_loop raw mono processor now =
    if managed_loop
    then marks hardware_read_entry now ∷ []
    else begins raw mono processor ∷ marks hardware_read_entry now ∷ []

abbrev pub leave_read : ℤ → List Event
leave_read now = marks hardware_read_exit now ∷ []

abbrev pub enter_write : ℤ → List Event
enter_write now = marks hardware_write_entry now ∷ []

abbrev pub leave_write : Bool → ℤ → ℤ → ℤ → List Event
leave_write managed_loop now raw end =
    if managed_loop
    then marks hardware_write_exit now ∷ []
    else marks hardware_write_exit now ∷ finishes raw end ∷ []

-- `Boundary`
abbrev pub boundary : Field → Field → ℤ → ℤ → List Event → List Event
boundary entry exit start end inside = marks entry start ∷ inside ++ (marks exit end ∷ [])

-- the answers of the file functions
pub record Answers : Type 0 where
  pub opened : Bool
  pub header_written : Bool
  pub data_written : Bool
  pub closed : Bool

abbrev pub header : ℕ → ℕ → ℕ → List ℤ
header profile_level size drops =
    pos 0x5a464354494d4531
    ∷ pos 2
    ∷ pos (8 * field_count)
    ∷ pos size
    ∷ pos drops
    ∷ pos profile_level
    ∷ pos field_count
    ∷ pos 0
    ∷ []

abbrev saved : ℕ → Answers → Buffer → Option (List ℤ × List Record)
saved profile_level a b =
    if a.opened && (a.header_written && a.data_written) && a.closed
    then some (header profile_level b.size b.drops, take b.size b.data_)
    else none

-- The file, if it was written in full; then the name is dropped, and there is no second file.
unfoldable pub flush : ℕ → Answers → Recorder → Option (List ℤ × List Record) × Recorder
flush profile_level a r = elim r.storage.buffer [
  | none ↦ (none, r)
  | some b ↦ elim r.storage.path [
    | [] ↦ (none, r)
    | c ∷ path ↦ elim (saved profile_level a b) [
      | none ↦ (none, r)
      | some file ↦ (some file, record r { storage = record r.storage { path = [] } })
    ]
  ]
]
