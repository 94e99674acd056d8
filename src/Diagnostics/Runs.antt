-- ===== src/Diagnostics/Runs.antt =====
-- The ring of diagnostics.hpp in every interleaving, and after the last `drain`.
use zero_force_controller.Common.{
  ℕ, zero, suc, ◌+◌, ◌-◌, ◌*◌, ◌%◌, ◌^◌, ◌≤◌, ◌<◌, ◌≡◌, inl, inr, refl, sym, ap, ◌∙◌, List, [], ◌∷◌,
  ◌==◌, arith, length, take, take_all, replicate, Bool-cases, ==_iff,
}
use zero_force_controller.Diagnostics.{
  Producer, rests, checks, stored, Consumer, looks, prints, moves_on, Sink, Event, pushes,
  producer_steps, consumer_steps, fresh, begin_push, step_producer, step_consumer, step, run,
}
use zero_force_controller.Diagnostics.Ring.{running, IsSound, Sound}
use zero_force_controller.Diagnostics.Ring.{fresh-Sound}
use zero_force_controller.Diagnostics.Pushes.{push-Sound, producer-Sound}
use zero_force_controller.Diagnostics.Drains.{consumer-Sound}

module _ {R : Type 0} (capacity : ℕ) (blank : R) (positive : 0 < capacity) where
  step-Sound :
      (s : Sink R) (e : Event R)
      → s.pushed < 2 ^ 64
      → Sound capacity blank s
      → Sound capacity blank (step capacity blank s e)
  unfolding step
  step-Sound s (pushes r) h i =
      simp i.sound.producer (push-Sound capacity blank i.p i.c r s i.sound)
  step-Sound s producer_steps h i =
      simp i.sound.producer (producer-Sound capacity blank positive i.p i.c s h i.sound)
  step-Sound s consumer_steps h i =
      simp i.sound.consumer (consumer-Sound capacity blank i.p i.c s h i.sound)

  pushed_begin : (p : Producer R) (r : R) (s : Sink R) → (begin_push p r s).pushed ≤ s.pushed + 1
  pushed_begin rests r s = omega arith
  pushed_begin (checks seen r') r s = omega arith
  pushed_begin (stored r') r s = omega arith

  pushed_producer : (p : Producer R) (s : Sink R) → (step_producer capacity p s).pushed ≤ s.pushed
  pushed_producer rests s = omega arith
  pushed_producer (checks seen r) s = ground arith
  pushed_producer (stored r) s = omega arith

  pushed_consumer :
      (c : Consumer) (s : Sink R) → (step_consumer capacity blank c s).pushed ≤ s.pushed
  pushed_consumer looks s = ground arith
  pushed_consumer prints s = omega arith
  pushed_consumer moves_on s = omega arith

  pushed_lem : (s : Sink R) (e : Event R) → (step capacity blank s e).pushed ≤ s.pushed + 1
  unfolding step
  pushed_lem s (pushes r) = pushed_begin s.producer r s
  pushed_lem s producer_steps = omega (arith, pushed_producer s.producer s)
  pushed_lem s consumer_steps = omega (arith, pushed_consumer s.consumer s)

  -- Every interleaving with fewer than 2 ^ 64 events keeps the ring sound.
  pub run-Sound :
      (s : Sink R) (es : List (Event R))
      → s.pushed + length es < 2 ^ 64
      → Sound capacity blank s
      → Sound capacity blank (run capacity blank s es)
  run-Sound s [] h i = i
  run-Sound s (e ∷ es) h i =
      run-Sound (step capacity blank s e) es (omega (arith, h, pushed_lem s e))
        (step-Sound s e (omega arith) i)

-- how many more steps the reader has
abbrev left : {R : Type 0} → Consumer → Sink R → ℕ
left looks s = 3 * (s.write - s.read)
left prints s = 3 * (s.write - s.read) - 1
left moves_on s = 3 * (s.write - s.read) - 2

module _ {R : Type 0} (capacity : ℕ) (blank : R) (positive : 0 < capacity) where
  left_step :
      (p : Producer R) (c : Consumer) (s : Sink R)
      → s.pushed < 2 ^ 64
      → IsSound capacity blank p c s
      → let s' = step_consumer capacity blank c s in left s'.consumer s' ≤ left c s - 1
  left_step p looks s h i = elim (Bool-cases (s.read == s.write)) [
    | inl e ↦ simp (e, i.consumer) (omega (arith, (==_iff s.read s.write).0 e))
    | inr e ↦ simp e (omega arith)
  ]
  left_step p prints s h i = omega arith
  left_step p moves_on s h i =
      let next : (s.read + 1) % 2 ^ 64 ≡ s.read + 1 = omega (arith, h, i.behind, i.account) in
      rw next (omega arith)

  left_bound :
      (p : Producer R) (c : Consumer) (s : Sink R)
      → IsSound capacity blank p c s
      → left c s ≤ 3 * capacity
  left_bound p looks s i = omega (arith, i.fits)
  left_bound p prints s i = omega (arith, i.fits)
  left_bound p moves_on s i = omega (arith, i.fits)

  nothing_left :
      (p : Producer R) (c : Consumer) (s : Sink R)
      → IsSound capacity blank p c s
      → left c s ≡ 0
      → s.printed ≡ s.taken_in
  nothing_left p looks s i e =
      i.order
      ∙ ap (λ t. take t s.taken_in) {x = length s.printed} {y = length s.taken_in}
          (omega (arith, e, i.reads, i.behind, i.written))
      ∙ take_all s.taken_in
  nothing_left p prints s i e = absurd (omega (arith, e, i.behind))
  nothing_left p moves_on s i e = absurd (omega (arith, e, i.behind))

  run_pushed :
      (s : Sink R) (es : List (Event R)) → (run capacity blank s es).pushed ≤ s.pushed + length es
  run_pushed s [] = omega arith
  run_pushed s (e ∷ es) =
      omega (arith, run_pushed (step capacity blank s e) es, pushed_lem capacity blank positive s e)

  consumer_keeps :
      (c : Consumer) (s : Sink R)
      → ((step_consumer capacity blank c s).taken_in ≡ s.taken_in)
        × ((step_consumer capacity blank c s).pushed ≡ s.pushed)
  consumer_keeps looks s = elim (Bool-cases (s.read == s.write)) [
    | inl e ↦ simp e (refl, refl)
    | inr e ↦ simp e (refl, refl)
  ]
  consumer_keeps prints s = (refl, refl)
  consumer_keeps moves_on s = (refl, refl)

  drain_lem :
      (n : ℕ) (s : Sink R)
      → s.pushed < 2 ^ 64
      → Sound capacity blank s
      → left s.consumer s ≤ n
      → (run capacity blank s (replicate n consumer_steps)).printed ≡ s.taken_in
  unfolding step
  drain_lem zero s h i b = nothing_left i.p i.c s i.sound (rw⁻¹ i.sound.consumer (omega arith))
  drain_lem (suc n) s h i b =
      let keeps = consumer_keeps s.consumer s in
      let here = ap (λ c. left c s) i.sound.consumer in
      let fewer : left (step_consumer capacity blank i.c s).consumer
            (step_consumer capacity blank i.c s)
          ≤ n =
        omega (arith, left_step i.p i.c s h i.sound, here, b) in
      drain_lem n (step capacity blank s consumer_steps) (rw keeps.1 h)
        (step-Sound capacity blank positive s consumer_steps h i) (simp i.sound.consumer fewer)
      ∙ keeps.0

  -- Whatever the interleaving of the two threads was, if no push is under way, then a drain of
  -- enough steps prints exactly the records that were taken in, in their order, and every push was
  -- either taken in or counted as dropped.
  pub printed_all :
      (es : List (Event R)) (n : ℕ)
      → length es < 2 ^ 64
      → (run capacity blank (fresh capacity blank) es).producer ≡ rests
      → 3 * capacity ≤ n
      → let s = run capacity blank (fresh capacity blank) es in
        ((run capacity blank s (replicate n consumer_steps)).printed ≡ s.taken_in)
        × (s.dropped + length s.taken_in ≡ s.pushed)
  printed_all es n h e b =
      let s = run capacity blank (fresh capacity blank) es in
      let i =
        run-Sound capacity blank positive (fresh capacity blank) es (omega (arith, h))
          (fresh-Sound capacity blank) in
      let few : s.pushed < 2 ^ 64 = omega (arith, h, run_pushed (fresh capacity blank) es) in
      let here = ap (λ c. left c s) i.sound.consumer in
      let idle = ap running (sym i.sound.producer ∙ e) in
      (
        drain_lem n s few i (omega (arith, here, b, left_bound i.p i.c s i.sound)),
        omega (arith, idle, i.sound.account, i.sound.written),
      )
