-- ===== src/Diagnostics/Ring.antt =====
-- What the ring of diagnostics.hpp holds: an invariant of its two threads.
use zero_force_controller.Common.{
  ℕ, ◌+◌, ◌%◌, ◌≤◌, ◌<◌, ◌≡◌, refl, List, arith, length, get_or, take, length-replicate,
}
use zero_force_controller.Diagnostics.{
  Producer, rests, checks, stored, Consumer, looks, prints, moves_on, Sink, fresh,
}

abbrev pub ahead : Consumer → ℕ
ahead looks = 0
ahead prints = 0
ahead moves_on = 1

abbrev pub running : {R : Type 0} → Producer R → ℕ
running rests = 0
running (checks seen r) = 1
running (stored r) = 1

-- a record in hand
abbrev pub owes : Consumer → ℕ
owes looks = 0
owes prints = 1
owes moves_on = 1

pub in_hand_lem : (c : Consumer) → ahead c ≤ owes c
in_hand_lem looks = omega arith
in_hand_lem prints = omega arith
in_hand_lem moves_on = omega arith

module _ {R : Type 0} (capacity : ℕ) (blank : R) where
  abbrev pub Producing : Producer R → List R → ℕ → ℕ → Type 0
  Producing rests records read write = Unit
  Producing (checks seen r) records read write = (seen ≤ read) × (write ≤ seen + capacity)
  Producing (stored r) records read write =
      (write < read + capacity) × (get_or records (write % capacity) blank ≡ r)

  -- What the ring holds is what was taken in and is not read, and what was printed is the rest.
  pub record IsSound (p : Producer R) (c : Consumer) (s : Sink R) : Type 0 where
    pub producer : s.producer ≡ p
    pub consumer : s.consumer ≡ c
    pub room : length s.records ≡ capacity
    pub written : s.write ≡ length s.taken_in
    pub reads : length s.printed ≡ s.read + ahead c
    pub behind : s.read + owes c ≤ s.write
    pub fits : s.write ≤ s.read + capacity
    pub kept :
        (k : ℕ)
        → s.read ≤ k
        → k < s.write
        → get_or s.records (k % capacity) blank ≡ get_or s.taken_in k blank
    pub order : s.printed ≡ take (length s.printed) s.taken_in
    pub producing : Producing p s.records s.read s.write
    pub account : s.dropped + s.write + running p ≡ s.pushed

  pub record Sound (s : Sink R) : Type 0 where
    pub p : Producer R
    pub c : Consumer
    pub sound : IsSound p c s

  pub fresh-Sound : Sound (fresh capacity blank)
  fresh-Sound = record {
    p = rests;
    c = looks;
    sound = record {
      producer = refl;
      consumer = refl;
      room = length-replicate capacity blank;
      written = refl;
      reads = refl;
      behind = omega arith;
      fits = omega arith;
      kept = λ k lo hi. absurd (omega arith);
      order = refl;
      producing = tt;
      account = refl;
    };
  }
