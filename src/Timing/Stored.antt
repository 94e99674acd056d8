-- ===== src/Timing/Stored.antt =====
-- How the bounded buffer of packages/zfc_timing stands to the unbounded journal, call by call.
use zero_force_controller.Common.{
  last_or_before, get_or-append_lt, get_or-append_last, ℕ, ◌+◌, ◌-◌, ◌%◌, ◌^◌, ◌≤◌, ◌<◌, ◌≡◌, ◌≢◌,
  refl, sym, ap, ◌∙◌, inl, inr, min, Option, none, some, List, [], ◌∷◌, ◌++◌, arith, length, get_or,
  set, length-append, length-set, get_or-set_self, get_or-set_ne, ◌==◌, leb, if◌then◌else◌,
}
use zero_force_controller.Common.Int.{ℤ}
use zero_force_controller.Timing.Fields.{Record, blank, put, sleep_exit}
use zero_force_controller.Timing.{Buffer, amend}
use zero_force_controller.Timing.Journal.{lost}

-- where the last cycle is, if it is stored
abbrev pub newest : ℕ → ℕ → Option ℕ
newest capacity n = if n == 0 then none else if leb n capacity then some (n - 1) else none

pub record IsStored (capacity : ℕ) (b : Buffer) (last : Option ℕ) (cycles : List Record)
    : Type 0 where
  pub bound : b.capacity ≡ capacity
  pub room : length b.data_ ≡ capacity
  pub size : b.size ≡ min (length cycles) capacity
  pub drops : b.drops ≡ lost capacity (length cycles)
  pub stored : (k : ℕ) → k < b.size → get_or b.data_ k blank ≡ get_or cycles k blank
  pub last_place : last ≡ newest capacity (length cycles)

lost_full : (c n : ℕ) → c ≤ n → (lost c n + 1) % 2 ^ 64 ≡ lost c (n + 1)
lost_full c n h = omega arith

lost_room : (c n : ℕ) → n < c → lost c n ≡ lost c (n + 1)
lost_room c n h = omega arith

newest_full : (c n : ℕ) → c ≤ n → none ≡ newest c (n + 1)
newest_full c n h = ground arith

newest_room : (c n : ℕ) → n < c → some n ≡ newest c (n + 1)
newest_room c n h = ground arith

-- A full buffer counts the cycle as lost.
pub full_lem :
    (capacity : ℕ) (b : Buffer) (last : Option ℕ) (cycles : List Record) (r : Record)
    → IsStored capacity b last cycles
    → b.size ≡ b.capacity
    → IsStored capacity (record b { drops = (b.drops + 1) % 2 ^ 64 }) none (cycles ++ (r ∷ []))
full_lem capacity b last cycles r s full =
    let n = length-append cycles (r ∷ []) in
    record {
      bound = s.bound;
      room = s.room;
      size = omega (arith, n, s.size, s.bound, full);
      drops = rw (s.drops, n) (lost_full capacity (length cycles) (omega arith));
      stored = λ k h.
          s.stored k h ∙ sym (get_or-append_lt cycles (r ∷ []) k blank (omega (arith, h, s.size)));
      last_place = rw n (newest_full capacity (length cycles) (omega arith));
    }

-- A buffer with room stores it, and what is then written to its place.
pub room_lem :
    (capacity : ℕ) (b : Buffer) (last : Option ℕ) (cycles : List Record) (r r' : Record)
    → IsStored capacity b last cycles
    → b.size ≢ b.capacity
    → IsStored capacity
        (record b { data_ = set (set b.data_ b.size r) b.size r'; size = b.size + 1 })
        (some b.size)
        (cycles ++ (r' ∷ []))
room_lem capacity b last cycles r r' s open_ =
    let n = length-append cycles (r' ∷ []) in
    let here : b.size ≡ length cycles = omega (arith, s.size, s.bound) in
    let within : b.size < length (set b.data_ b.size r) =
      rw (length-set b.data_ b.size r, s.room) (omega arith) in
    record {
      bound = s.bound;
      room = length-set (set b.data_ b.size r) b.size r' ∙ length-set b.data_ b.size r ∙ s.room;
      size = omega (arith, n, here, s.bound, s.size);
      drops = rw (s.drops, n) (lost_room capacity (length cycles) (omega arith));
      stored = λ k h. elim (last_or_before k b.size h) [
        | inl e ↦
            rw (e, get_or-set_self (set b.data_ b.size r) b.size r' blank within, here)
              (sym (get_or-append_last cycles r' blank))
        | inr before ↦
            get_or-set_ne (set b.data_ b.size r) b.size k r' blank (λ e. omega arith)
            ∙ get_or-set_ne b.data_ b.size k r blank (λ e. omega arith)
            ∙ s.stored k before
            ∙ sym (get_or-append_lt cycles (r' ∷ []) k blank (omega arith))
      ];
      last_place = rw (n, here) (newest_room capacity (length cycles) (omega arith));
    }

not_newest : (c n k : ℕ) → none ≡ newest c n → k < min n c → n - 1 ≢ k
not_newest c n k e h = ground arith

newest_place : (c n k : ℕ) → some k ≡ newest c n → (k ≡ n - 1) × (k < min n c)
newest_place c n k e = ground arith

-- What is written to the place of the last cycle, if it is stored, is written to the last cycle.
pub amend_lem :
    (capacity : ℕ) (b : Buffer) (last : Option ℕ) (cycles : List Record) (raw : ℤ)
    → IsStored capacity b last cycles
    → IsStored capacity (amend last sleep_exit raw b) last (
        set cycles
          (length cycles - 1)
          (put (get_or cycles (length cycles - 1) blank) sleep_exit raw))
amend_lem capacity b none cycles raw s =
    let x = put (get_or cycles (length cycles - 1) blank) sleep_exit raw in
    let n = length-set cycles (length cycles - 1) x in
    record {
      bound = s.bound;
      room = s.room;
      size = rw n s.size;
      drops = rw n s.drops;
      stored = λ k h.
          s.stored k h
          ∙ sym (
              get_or-set_ne cycles (length cycles - 1) k x blank
                (not_newest capacity (length cycles) k s.last_place (omega (arith, h, s.size))));
      last_place = rw n s.last_place;
    }
amend_lem capacity b (some k) cycles raw s =
    let (e, h) = newest_place capacity (length cycles) k s.last_place in
    let x = put (get_or cycles (length cycles - 1) blank) sleep_exit raw in
    let n = length-set cycles (length cycles - 1) x in
    let y = put (get_or b.data_ k blank) sleep_exit raw in
    let same : y ≡ x = rw (s.stored k (omega arith), e) refl in
    record {
      bound = s.bound;
      room = length-set b.data_ k y ∙ s.room;
      size = rw n s.size;
      drops = rw n s.drops;
      stored = λ j p. elim (last_or_before j k (omega (arith, p, e, h, s.size))) [
        | inl q ↦
            ap (λ t. get_or (set b.data_ k y) t blank) q
            ∙ get_or-set_self b.data_ k y blank (rw s.room (omega arith))
            ∙ same
            ∙ sym (get_or-set_self cycles (length cycles - 1) x blank (omega arith))
            ∙ ap (λ t. get_or (set cycles (length cycles - 1) x) t blank) (omega (arith, q, e))
        | inr q ↦
            get_or-set_ne b.data_ k j y blank (λ t. omega arith)
            ∙ s.stored j p
            ∙ sym (get_or-set_ne cycles (length cycles - 1) j x blank (λ t. omega arith))
      ];
      last_place = rw n s.last_place;
    }
