-- ===== src/Telemetry/Accounts/Counts.antt =====
-- Each step keeps the counters of the trial.
use zero_force_controller.Common.{ℕ, ◌+◌, ◌^◌, ◌≤◌, ◌<◌, ◌≡◌, refl, Bool, map, arith, length-append}
use zero_force_controller.Double.{Double}
use zero_force_controller.Control.{Snapshot, fresh_snapshot}
use zero_force_controller.Capture
use zero_force_controller.Capture.{Capture, append, pop, completion}
use zero_force_controller.Telemetry.{
  Pipeline, Event, begins, sampled, finishes, ticks, Place, waiting, looping, filling, publishing,
  completing, reporting, capacity, begin, sample, finish, fill, publish, complete, report, advance,
  step,
}
use zero_force_controller.Telemetry.Message.{to_sample}
use zero_force_controller.Telemetry.Handshake.{IsOrderly}
use zero_force_controller.Telemetry.Accounts.{IsAccounted, IsOwned}

module _ {D : Type 0} ⦃d : Double D⦄ where
  begin-IsAccounted :
      (p : Pipeline D) (id : ℕ) → IsOrderly p → IsAccounted p → IsAccounted (begin id p).1
  unfolding begin Capture.begin
  begin-IsAccounted p id o a = ground arith

  sample-IsAccounted :
      (p : Pipeline D) (s : Snapshot D)
      → IsOrderly p
      → IsAccounted p
      → p.capture.write + 1 < 2 ^ 64
      → p.capture.sequence + 1 < 2 ^ 64
      → IsAccounted (sample s p)
  unfolding sample append
  sample-IsAccounted p s o a w q = ground arith

  finish-IsAccounted : (p : Pipeline D) (c : Bool) → IsAccounted p → IsAccounted (finish c p)
  unfolding finish Capture.finish
  finish-IsAccounted p c a = ground arith

  publish-IsAccounted :
      (taken : Bool) (p : Pipeline D)
      → p.place ≡ publishing
      → p.capture.write < 2 ^ 64
      → IsOrderly p
      → IsOwned p
      → IsAccounted p
      → IsAccounted (publish taken p)
  unfolding publish
  publish-IsAccounted taken p e w o own a = ground arith

  advance-IsAccounted :
      (at : Place) (taken : Bool) (p : Pipeline D)
      → p.place ≡ at
      → p.capture.write + 1 < 2 ^ 64
      → IsOrderly p
      → IsOwned p
      → IsAccounted p
      → IsAccounted (advance at taken p)
  unfolding advance
  advance-IsAccounted waiting taken p e w o own a = ground arith
  advance-IsAccounted looping taken p e w o own a = ground arith
  advance-IsAccounted filling taken p e w o own a =
      unfold fill pop in
      ground (
        arith,
        length-append p.samples
            (map to_sample (Capture.taken (pop capacity fresh_snapshot p.capture).0)),
      )
  advance-IsAccounted publishing taken p e w o own a =
      publish-IsAccounted taken p e (omega arith) o own a
  advance-IsAccounted completing taken p e w o own a = unfold complete completion in ground arith
  advance-IsAccounted reporting taken p e w o own a = unfold report in ground arith

  pub step-IsAccounted :
      (p : Pipeline D) (e : Event D)
      → IsOrderly p
      → p.capture.write + 1 < 2 ^ 64
      → p.capture.sequence + 1 < 2 ^ 64
      → IsOwned p
      → IsAccounted p
      → IsAccounted (step p e)
  unfolding step
  step-IsAccounted p (begins id) o w q own a = begin-IsAccounted p id o a
  step-IsAccounted p (sampled s) o w q own a = sample-IsAccounted p s o a w q
  step-IsAccounted p (finishes c) o w q own a = finish-IsAccounted p c a
  step-IsAccounted p (ticks taken) o w q own a = advance-IsAccounted p.place taken p refl w o own a

  advance_sequence :
      (at : Place) (taken : Bool) (p : Pipeline D)
      → (advance at taken p).capture.sequence ≡ p.capture.sequence
  unfolding advance fill publish complete report pop completion
  advance_sequence waiting taken p = ground arith
  advance_sequence looping taken p = ground arith
  advance_sequence filling taken p = ground arith
  advance_sequence publishing taken p = ground arith
  advance_sequence completing taken p = ground arith
  advance_sequence reporting taken p = ground arith

  pub step_sequence :
      (p : Pipeline D) (e : Event D) → (step p e).capture.sequence ≤ p.capture.sequence + 1
  unfolding step begin sample finish Capture.begin Capture.finish append
  step_sequence p (begins id) = ground arith
  step_sequence p (sampled s) = ground arith
  step_sequence p (finishes c) = ground arith
  step_sequence p (ticks taken) = ground (arith, advance_sequence p.place taken p)
