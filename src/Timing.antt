-- ===== src/Timing.antt =====
-- packages/zfc_timing: the trace of the control cycles, as it is built for a profile level above 0
-- (cycle_timing.hpp and cycle_timing.cpp; at level 0 every function is empty). The clocks, the
-- processor number, the environment and the answers of the file functions are arguments.
pub mod Fields
pub mod Events
pub mod Journal
pub mod Stored
pub mod Follows
pub mod Trace
use zero_force_controller.Common.{
  ℕ, zero, suc, ◌+◌, ◌*◌, ◌/◌, ◌==◌, Bool, true, false, not, ◌&&◌, ◌||◌, Option, none, some, List,
  [], ◌∷◌, ltb, replicate, get_or, set, if◌then◌else◌,
}
use zero_force_controller.Common.Int.{
  ℤ, pos, negsuc, neg, pos_part, neg_part, ◌+ℤ◌, ◌-ℤ◌, ltb_ℤ, eqb_ℤ,
}
use zero_force_controller.Control.{increment}
use zero_force_controller.Timing.Fields.{
  Record, Field, blank, put, field_count, schema, run_id, level, cycle, deadline_mono_ns,
  deadline_system_ns, cycle_mono_ns, cycle_system_ns, actual_period_ns, cpu, trace_drops,
  cycle_entry, hardware_read_entry, hardware_read_exit, hardware_write_entry, hardware_write_exit,
  sleep_exit, commit_entry, commit_exit, clock_mapping_window_ns,
}

pub record Buffer : Type 0 where
  pub data_ : List Record
  pub capacity : ℕ
  pub size : ℕ
  pub drops : ℕ

-- The record that was written to, by its place.
unfoldable pub append : Buffer → Record → Option ℕ × Buffer
append b r =
    if b.size == b.capacity
    then (none, record b { drops = increment b.drops })
    else (some b.size, record b { data_ = set b.data_ b.size r; size = b.size + 1 })

-- The file name is a list of characters.
pub record Storage : Type 0 where
  pub path : List ℕ
  pub buffer : Option Buffer
  pub id : ℤ

-- what the running thread has of its cycle
pub record Cycle : Type 0 where
  pub current : Record
  pub in_cycle : Bool
  pub sequence : ℕ
  pub previous_read : ℤ

pub record Recorder : Type 0 where
  pub storage : Storage
  pub thread : Cycle
  pub last_committed : Option ℕ

abbrev pub fresh_cycle : Cycle
fresh_cycle = record { current = blank; in_cycle = false; sequence = 0; previous_read = pos 0 }

abbrev pub fresh : Recorder
fresh = record {
  storage = record { path = []; buffer = none; id = pos 0 };
  thread = fresh_cycle;
  last_committed = none;
}

-- An environment variable, with what `std::stoll` makes of it: nothing, or a number, with whether it
-- used all of the text.
pub data Variable : Type 0 where
  absent refused : Variable
  parsed : ℤ → Bool → Variable

pub record Environment : Type 0 where
  pub path : Option (List ℕ)
  pub capacity : Variable
  pub run_number : Variable

-- `none` where the source throws
unfoldable pub env_integer : Variable → ℤ → Option ℤ
env_integer absent fallback = some fallback
env_integer refused fallback = none
env_integer (parsed n whole) fallback = if not whole || ltb_ℤ n (pos 0) then none else some n

abbrev pub new_buffer : ℕ → Buffer
new_buffer n = record { data_ = replicate n blank; capacity = n; size = 0; drops = 0 }

unfoldable pub allocate : Environment → List ℕ → Recorder → ℕ → Bool × Recorder
allocate env path r capacity =
    if ltb capacity 1 || ltb 2_000_000 capacity
    then (false, r)
    else elim (env_integer env.run_number (pos 0)) [
      | none ↦ (false, record r { storage = record r.storage { path = path } })
      | some id ↦ (
        true,
        record r { storage = record { path = path; buffer = some (new_buffer capacity); id = id } },
      )
    ]

-- `false` where the source throws
unfoldable pub initialize : Environment → Recorder → Bool × Recorder
initialize env r = elim r.storage.buffer [
  | some b ↦ (true, r)
  | none ↦ elim env.path [
    | none ↦ (true, r)
    | some [] ↦ (true, r)
    | some (c ∷ path) ↦ elim (env_integer env.capacity (pos 180_000)) [
      | none ↦ (false, r)
      | some (negsuc n) ↦ (false, r)
      | some (pos n) ↦ allocate env (c ∷ path) r n
    ]
  ]
]

-- `raw`, `mono` and `processor` are the answers of the clocks and of `sched_getcpu`.
unfoldable pub begin : ℕ → Storage → ℤ → ℤ → ℤ → Cycle → Cycle
begin profile_level storage raw mono processor c = elim storage.buffer [
  | none ↦ record c { in_cycle = false }
  | some b ↦ record c {
    in_cycle = true;
    sequence = c.sequence + 1;
    current =
        put
          (put
            (put
              (put
                (put (put (put blank schema (pos 2)) run_id storage.id) level (pos profile_level))
                cycle (pos c.sequence))
              cycle_entry raw)
            cycle_mono_ns mono)
          cpu processor;
  }
]

unfoldable pub mark : Field → ℤ → Cycle → Cycle
mark f now c = if c.in_cycle then record c { current = put c.current f now } else c

unfoldable pub value : Field → ℤ → Cycle → Cycle
value f v c = if c.in_cycle then record c { current = put c.current f v } else c

-- division that drops the fraction
abbrev half : ℤ → ℤ
half (pos n) = pos (n / 2)
half (negsuc n) = neg (pos ((n + 1) / 2))

unfoldable pub map_system_deadline : ℤ → ℤ → ℤ → ℤ → Cycle → Cycle
map_system_deadline deadline before system after c = if not c.in_cycle then c else record c {
  current =
      put
        (put (put (put c.current deadline_system_ns deadline) cycle_system_ns system)
          deadline_mono_ns (before +ℤ half (after -ℤ before) +ℤ deadline -ℤ system))
        clock_mapping_window_ns (after -ℤ before);
}

-- `FineSpan`, for level 2: its start, and what its end adds
abbrev pub open_span : ℤ → Cycle → ℤ
open_span now c = if c.in_cycle then now else pos 0

unfoldable pub close_span : Field → ℤ → ℤ → Cycle → Cycle
close_span f start now c =
    if eqb_ℤ start (pos 0)
    then c
    else record c { current = put c.current f (c.current f +ℤ (now -ℤ start)) }

-- the record that `finish` hands to the buffer
unfoldable pub closed : ℕ → ℤ → Cycle → Cycle
closed drops raw c =
    let read = c.current hardware_read_entry in
    let timed = if eqb_ℤ read (pos 0) then c else record c {
      current =
          put c.current actual_period_ns
            (if eqb_ℤ c.previous_read (pos 0) then pos 0 else read -ℤ c.previous_read);
      previous_read = read;
    } in
    record timed { current = put (put timed.current trace_drops (pos drops)) commit_entry raw }

abbrev pub amend : Option ℕ → Field → ℤ → Buffer → Buffer
amend none f v b = b
amend (some k) f v b = record b { data_ = set b.data_ k (put (get_or b.data_ k blank) f v) }

-- A cycle runs only if there is a buffer.
unfoldable pub finish : ℤ → ℤ → Recorder → Recorder
finish raw end r = if not r.thread.in_cycle then r else elim r.storage.buffer [
  | none ↦ r
  | some b ↦
      let c = closed b.drops raw r.thread in
      let (out, b') = append b c.current in
      record {
        storage = record r.storage { buffer = some (amend out commit_exit end b') };
        thread = record c { in_cycle = false };
        last_committed = out;
      }
]

unfoldable pub after_sleep : ℤ → Recorder → Recorder
after_sleep raw r = elim r.storage.buffer [
  | none ↦ r
  | some b ↦ record r {
    storage = record r.storage { buffer = some (amend r.last_committed sleep_exit raw b) };
  }
]
