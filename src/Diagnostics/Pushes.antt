-- ===== src/Diagnostics/Pushes.antt =====
-- The steps of `push` keep the ring of diagnostics.hpp sound.
use zero_force_controller.Common.{
  last_or_before, ℕ, ◌+◌, ◌-◌, ◌%◌, ◌^◌, ◌≤◌, ◌<◌, ◌≡◌, ◌≢◌, inl, inr, refl, sym, ap, ◌∙◌, false,
  [], ◌∷◌, ◌++◌, ◌==◌, arith, length, get_or, take-append, length-append, length-set,
  get_or-set_self, get_or-set_ne, get_or-append_lt, get_or-append_last, Bool-cases,
}
use zero_force_controller.Capture.{difference}
use zero_force_controller.Capture.Ring.{mod-ne}
use zero_force_controller.Diagnostics.{
  Producer, rests, checks, stored, Consumer, Sink, begin_push, step_producer,
}
use zero_force_controller.Diagnostics.Ring.{IsSound, Sound, in_hand_lem}

apart : (c k w : ℕ) → k < w → w < k + c → w % c ≢ k % c
apart c k w p q e =
    mod-ne c k (w - k) (omega arith) (omega arith) (ap (λ (t : ℕ). t % c) (omega arith) ∙ e)

free_lem :
    (c seen w : ℕ)
    → seen ≤ w
    → w < 2 ^ 64
    → w ≤ seen + c
    → (difference w seen == c) ≡ false
    → w < seen + c
free_lem c seen w p q r e = ground arith

module _ {R : Type 0} (capacity : ℕ) (blank : R) where
  pub push-Sound :
      (p : Producer R) (c : Consumer) (r : R) (s : Sink R)
      → IsSound capacity blank p c s
      → Sound capacity blank (begin_push p r s)
  push-Sound rests c r s i = record {
    p = checks s.read r;
    c = c;
    sound = record {
      producer = refl;
      consumer = i.consumer;
      room = i.room;
      written = i.written;
      reads = i.reads;
      behind = i.behind;
      fits = i.fits;
      kept = i.kept;
      order = i.order;
      producing = (omega arith, i.fits);
      account = omega (arith, i.account);
    };
  }
  push-Sound (checks seen r') c r s i = record { p = checks seen r'; c = c; sound = i }
  push-Sound (stored r') c r s i = record { p = stored r'; c = c; sound = i }

  module _ (positive : 0 < capacity) where
    pub producer-Sound :
        (p : Producer R) (c : Consumer) (s : Sink R)
        → s.pushed < 2 ^ 64
        → IsSound capacity blank p c s
        → Sound capacity blank (step_producer capacity p s)
    producer-Sound rests c s h i = record { p = rests; c = c; sound = i }
    producer-Sound (checks seen r) c s h i =
        let (old, space) = i.producing in
        elim (Bool-cases (difference s.write seen == capacity)) [
          | inl full ↦ record {
            p = rests;
            c = c;
            sound = simp full (record {
              producer = refl;
              consumer = i.consumer;
              room = i.room;
              written = i.written;
              reads = i.reads;
              behind = i.behind;
              fits = i.fits;
              kept = i.kept;
              order = i.order;
              producing = tt;
              account = omega (arith, h, i.account);
            });
          }
          | inr free ↦
              let room_left : s.write < seen + capacity =
                free_lem capacity seen s.write (omega (arith, old, i.behind))
                  (omega (arith, h, i.account)) space free in
              record {
                p = stored r;
                c = c;
                sound = simp free (record {
                  producer = refl;
                  consumer = i.consumer;
                  room = length-set s.records (s.write % capacity) r ∙ i.room;
                  written = i.written;
                  reads = i.reads;
                  behind = i.behind;
                  fits = i.fits;
                  kept = λ k lo hi.
                      get_or-set_ne s.records (s.write % capacity) (k % capacity) r blank
                        (apart capacity k s.write hi (omega (arith, lo, room_left, old)))
                      ∙ i.kept k lo hi;
                  order = i.order;
                  producing = (
                    omega (arith, room_left, old),
                    get_or-set_self s.records (s.write % capacity) r blank
                        (rw i.room (omega arith)),
                  );
                  account = omega (arith, i.account);
                });
              }
        ]
    producer-Sound (stored r) c s h i =
        let (space, there) = i.producing in
        let n = length-append s.taken_in (r ∷ []) in
        record {
          p = rests;
          c = c;
          sound = record {
            producer = refl;
            consumer = i.consumer;
            room = i.room;
            written = omega (arith, h, n, i.written, i.account);
            reads = i.reads;
            behind = omega (arith, h, i.behind, i.account);
            fits = omega (arith, h, space, i.account);
            kept = λ k lo hi. elim (last_or_before k s.write (omega (arith, h, hi, i.account))) [
              | inl e ↦
                  ap (λ (t : ℕ). get_or s.records (t % capacity) blank) e
                  ∙ there
                  ∙ sym (get_or-append_last s.taken_in r blank)
                  ∙ ap (λ t. get_or (s.taken_in ++ (r ∷ [])) t blank) (omega (arith, e, i.written))
              | inr before ↦
                  i.kept k lo before
                  ∙ sym (
                      get_or-append_lt s.taken_in (r ∷ []) k blank
                        (omega (arith, before, i.written)))
            ];
            order =
                i.order
                ∙ sym (
                    take-append (length s.printed) s.taken_in (r ∷ [])
                      (omega (arith, i.reads, i.behind, i.written, in_hand_lem c)));
            producing = tt;
            account = omega (arith, h, i.account);
          };
        }
