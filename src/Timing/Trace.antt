-- ===== src/Timing/Trace.antt =====
-- The file of a traced run of packages/zfc_timing, against the journal of all cycles.
use zero_force_controller.Common.{
  take, length-replicate, ℕ, zero, suc, ◌≤◌, ◌<◌, ◌≡◌, refl, min, true, false, none, some, List, [],
  ◌∷◌, arith, length, get_or, ltb, ◌||◌,
}
use mathlib.Core.Path.{ap₂}
use zero_force_controller.Common.Int.{ℤ, pos}
use zero_force_controller.Timing.Fields.{Record, blank}
use zero_force_controller.Timing.{
  Storage, Recorder, Environment, env_integer, initialize, allocate, new_buffer, fresh,
}
use zero_force_controller.Timing.Events.{Event, run, Answers, header, flush}
use zero_force_controller.Timing.Journal.{empty, lost, journal}
use zero_force_controller.Timing.Stored.{IsStored}
use zero_force_controller.Timing.Follows.{run_lem}

take_lem {ℓ} :
    {A : Type ℓ} (d : A) (xs ys : List A) (n m : ℕ)
    → n ≤ length xs
    → n ≡ min (length ys) m
    → ((k : ℕ) → k < n → get_or xs k d ≡ get_or ys k d)
    → take n xs ≡ take m ys
take_lem d xs [] zero zero h e p = refl
take_lem d xs [] zero (suc m) h e p = refl
take_lem d xs ys zero zero h e p = refl
take_lem d xs (y ∷ ys) zero (suc m) h e p = absurd (omega arith)
take_lem d [] ys (suc n) m h e p = absurd (omega arith)
take_lem d (x ∷ xs) [] (suc n) m h e p = absurd (omega arith)
take_lem d (x ∷ xs) (y ∷ ys) (suc n) zero h e p = absurd (omega arith)
take_lem d (x ∷ xs) (y ∷ ys) (suc n) (suc m) h e p =
    ap₂ ◌∷◌ (p 0 (omega arith))
      (take_lem d xs ys n m (omega arith) (omega arith) (λ k q. p (suc k) (omega arith)))

new_buffer-IsStored : (n : ℕ) → IsStored n (new_buffer n) none []
new_buffer-IsStored n = record {
  bound = refl;
  room = length-replicate n blank;
  size = omega arith;
  drops = omega arith;
  stored = λ k h. absurd (omega arith);
  last_place = refl;
}

abbrev pub begun : List ℕ → ℕ → ℤ → Storage
begun path n id = record { path = path; buffer = some (new_buffer n); id = id }

initialize_lem :
    (env : Environment) (c : ℕ) (path : List ℕ) (n : ℕ) (id : ℤ)
    → env.path ≡ some (c ∷ path)
    → env_integer env.capacity (pos 180_000) ≡ some (pos n)
    → 1 ≤ n
    → n ≤ 2_000_000
    → env_integer env.run_number (pos 0) ≡ some id
    → initialize env fresh ≡ (true, record fresh { storage = begun (c ∷ path) n id })
unfolding initialize allocate
initialize_lem env c path n id p q lo hi i =
    let small : ltb n 1 || ltb 2_000_000 n ≡ false = ground arith in rw (p, q, i) (simp small refl)

abbrev pub all_well : Answers
all_well = record { opened = true; header_written = true; data_written = true; closed = true }

-- a program that traces, and the journal of the same calls
abbrev pub traced : ℕ → Environment → List Event → Recorder
traced profile_level env es = run profile_level (initialize env fresh).1 es

abbrev pub all_cycles : ℕ → ℕ → Storage → List Event → List Record
all_cycles profile_level n storage es = (journal profile_level n storage empty es).cycles

-- The file of a run that starts the trace with an accepted environment, if all of its writes succeed:
-- the first `n` of the finished cycles, in order and as they were when the last call was over, behind
-- a header with their number and the number of the others, whatever the calls were. A second `flush`
-- writes nothing.
pub flush_lem :
    (profile_level : ℕ) (env : Environment) (c : ℕ) (path : List ℕ) (n : ℕ) (id : ℤ)
    (es : List Event) (a : Answers)
    → env.path ≡ some (c ∷ path)
    → env_integer env.capacity (pos 180_000) ≡ some (pos n)
    → 1 ≤ n
    → n ≤ 2_000_000
    → env_integer env.run_number (pos 0) ≡ some id
    → let cycles = all_cycles profile_level n (begun (c ∷ path) n id) es in
      ((initialize env fresh).0 ≡ true)
      × ((flush profile_level all_well (traced profile_level env es)).0
          ≡ some (
            header profile_level (min (length cycles) n) (lost n (length cycles)),
            take n cycles,
          ))
      × ((flush profile_level a (flush profile_level all_well (traced profile_level env es)).1).0
          ≡ none)
unfolding flush
flush_lem profile_level env c path n id es a p q lo hi i =
    let storage = begun (c ∷ path) n id in
    let f =
      run_lem profile_level n storage (new_buffer n) (new_buffer n) none empty es
        (new_buffer-IsStored n) in
    let s = f.is_stored in
    let same =
      take_lem blank f.buffer.data_ (all_cycles profile_level n storage es) f.buffer.size n
        (omega (arith, s.room, s.size)) s.size s.stored in
    rw (initialize_lem env c path n id p q lo hi i, f.shape, same, s.size, s.drops)
      (refl, refl, refl)
