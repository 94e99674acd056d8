-- ===== src/Diagnostics/Drains.antt =====
-- The steps of `drain` keep the ring of diagnostics.hpp sound.
use zero_force_controller.Common.{
  ℕ, suc, ◌+◌, ◌%◌, ◌^◌, ◌≤◌, ◌<◌, ◌≡◌, inl, inr, refl, sym, ap, ◌∙◌, false, List, [], ◌∷◌, ◌++◌,
  ◌==◌, arith, get_or, take, take-suc, length-append, Bool-cases,
}
use mathlib.Core.Path.{ap₂}
use zero_force_controller.Diagnostics.{
  Producer, rests, checks, stored, Consumer, looks, prints, moves_on, Sink, step_consumer,
}
use zero_force_controller.Diagnostics.Ring.{Producing, IsSound, Sound}

more_lem : (r w : ℕ) → r ≤ w → (r == w) ≡ false → r + 1 ≤ w
more_lem r w p e = ground arith

module _ {R : Type 0} (capacity : ℕ) (blank : R) where
  Producing-read :
      (p : Producer R) (records : List R) (read write : ℕ)
      → Producing capacity blank p records read write
      → Producing capacity blank p records (read + 1) write
  Producing-read rests records read write h = tt
  Producing-read (checks seen r) records read write h = (omega (arith, h.0), h.1)
  Producing-read (stored r) records read write h = (omega (arith, h.0), h.1)

  pub consumer-Sound :
      (p : Producer R) (c : Consumer) (s : Sink R)
      → s.pushed < 2 ^ 64
      → IsSound capacity blank p c s
      → Sound capacity blank (step_consumer capacity blank c s)
  consumer-Sound p looks s h i = elim (Bool-cases (s.read == s.write)) [
    | inl none_left ↦ record { p = p; c = looks; sound = simp none_left i }
    | inr some_left ↦ record {
      p = p;
      c = prints;
      sound = simp some_left (record {
        producer = i.producer;
        consumer = refl;
        room = i.room;
        written = i.written;
        reads = i.reads;
        behind = more_lem s.read s.write (omega (arith, i.behind)) some_left;
        fits = i.fits;
        kept = i.kept;
        order = i.order;
        producing = i.producing;
        account = i.account;
      });
    }
  ]
  consumer-Sound p prints s h i =
      let x = get_or s.records (s.read % capacity) blank in
      let n = length-append s.printed (x ∷ []) in
      record {
        p = p;
        c = moves_on;
        sound = record {
          producer = i.producer;
          consumer = refl;
          room = i.room;
          written = i.written;
          reads = omega (arith, n, i.reads);
          behind = i.behind;
          fits = i.fits;
          kept = i.kept;
          order =
              ap₂ ◌++◌ (i.order ∙ ap (λ t. take t s.taken_in) (omega (arith, i.reads)))
                (ap (λ y. y ∷ []) (i.kept s.read (omega arith) (omega (arith, i.behind))))
              ∙ sym (take-suc s.read s.taken_in blank (omega (arith, i.behind, i.written)))
              ∙ ap (λ t. take t s.taken_in) {x = suc s.read} (omega (arith, n, i.reads));
          producing = i.producing;
          account = i.account;
        };
      }
  consumer-Sound p moves_on s h i =
      let next : (s.read + 1) % 2 ^ 64 ≡ s.read + 1 = omega (arith, h, i.behind, i.account) in
      record {
        p = p;
        c = looks;
        sound = record {
          producer = i.producer;
          consumer = refl;
          room = i.room;
          written = i.written;
          reads = omega (arith, h, i.reads, i.behind, i.account);
          behind = omega (arith, h, i.behind, i.account);
          fits = omega (arith, h, i.fits, i.behind, i.account);
          kept = λ k lo hi. i.kept k (omega (arith, h, lo, i.behind, i.account)) hi;
          order = i.order;
          producing = rw next (Producing-read p s.records s.read s.write i.producing);
          account = i.account;
        };
      }
