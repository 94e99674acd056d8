-- ===== src/Telemetry/Accounts/Owned.antt =====
-- The samples on their way are of the trial that the ring is in.
use zero_force_controller.Common.{
  ℕ, ◌+◌, ◌-◌, ◌^◌, ◌<◌, ◌≡◌, refl, Bool, List, [], ◌∷◌, ◌++◌, map, arith,
}
use zero_force_controller.Double.{Double}
use zero_force_controller.Control.{Snapshot, fresh_snapshot}
use zero_force_controller.Capture
use zero_force_controller.Capture.{Capture, append, pop, completion}
use zero_force_controller.Capture.Queue.{contents}
use zero_force_controller.Telemetry.{
  Pipeline, Event, begins, sampled, finishes, ticks, Place, waiting, looping, filling, publishing,
  completing, reporting, capacity, begin, sample, finish, fill, publish, complete, report, advance,
  step,
}
use zero_force_controller.Telemetry.Message.{Sample, to_sample}
use zero_force_controller.Telemetry.Log.{queued, IsPiped, stored_by}
use zero_force_controller.Telemetry.Handshake.{IsOrderly}
use zero_force_controller.Telemetry.Passage.{popped, queued-sample}
use zero_force_controller.Telemetry.Accounts.{Owns, IsOwned}

module _ {D : Type 0} ⦃d : Double D⦄ where
  Owns-append : (id : ℕ) (xs ys : List (Sample D)) → Owns id xs → Owns id ys → Owns id (xs ++ ys)
  Owns-append id [] ys h k = k
  Owns-append id (x ∷ xs) ys h k = (h.0, Owns-append id xs ys h.1 k)

  Owns-split : (id : ℕ) (xs ys : List (Sample D)) → Owns id (xs ++ ys) → Owns id xs × Owns id ys
  Owns-split id [] ys h = (tt, h)
  Owns-split id (x ∷ xs) ys h = let (a, b) = Owns-split id xs ys h.1 in ((h.0, a), b)

  -- the queue of an empty ring
  pub queued_empty : (p : Pipeline D) → p.capture.read ≡ p.capture.write → queued p ≡ []
  queued_empty p e =
      let none_left : p.capture.write - p.capture.read ≡ 0 = omega arith in rw none_left

  begin-IsOwned :
      (p : Pipeline D) (id : ℕ)
      → IsOrderly p
      → IsPiped p
      → p.capture.write + 1 < 2 ^ 64
      → IsOwned p
      → IsOwned (begin id p).1
  unfolding begin Capture.begin
  begin-IsOwned p id o v w own = ground (arith, queued_empty p)

  sample-IsOwned :
      (p : Pipeline D) (s : Snapshot D)
      → IsPiped p
      → p.capture.write + 1 < 2 ^ 64
      → IsOwned p
      → IsOwned (sample s p)
  unfolding sample append
  sample-IsOwned p s v w own =
      let id = p.capture.trial in
      let more : Owns id (stored_by p (sampled s)) = ground arith in
      let all = Owns-append id (queued p) (stored_by p (sampled s)) own.1 more in
      let same : (append capacity p.capture s).trial ≡ id = ground arith in
      rw same (own.0, rw (queued-sample p s v w) all)

  finish-IsOwned :
      (p : Pipeline D) (c : Bool)
      → IsPiped p
      → p.capture.write + 1 < 2 ^ 64
      → IsOwned p
      → IsOwned (finish c p)
  unfolding finish Capture.finish
  finish-IsOwned p c v w own = ground arith

  fill-IsOwned :
      (p : Pipeline D)
      → p.place ≡ filling
      → IsPiped p
      → p.capture.write + 1 < 2 ^ 64
      → IsOwned p
      → IsOwned (fill p)
  unfolding fill
  fill-IsOwned p at v w own =
      let c = (pop capacity fresh_snapshot p.capture).1 in
      let out = map to_sample (Capture.taken (pop capacity fresh_snapshot p.capture).0) in
      let (_, _, e) = popped p.capture v w in
      let id = p.capture.trial in
      let (first, rest) =
        Owns-split id out (map to_sample (contents capacity fresh_snapshot c)) (rw e own.1) in
      unfold pop in ground (arith, Owns-append id p.samples out)

  advance-IsOwned :
      (at : Place) (taken : Bool) (p : Pipeline D)
      → p.place ≡ at
      → IsPiped p
      → p.capture.write + 1 < 2 ^ 64
      → IsOwned p
      → IsOwned (advance at taken p)
  unfolding advance
  advance-IsOwned waiting taken p e v w own = ground arith
  advance-IsOwned looping taken p e v w own = ground arith
  advance-IsOwned filling taken p e v w own = fill-IsOwned p e v w own
  advance-IsOwned publishing taken p e v w own = unfold publish in ground arith
  advance-IsOwned completing taken p e v w own = unfold complete completion in ground arith
  advance-IsOwned reporting taken p e v w own = unfold report in ground arith

  pub step-IsOwned :
      (p : Pipeline D) (e : Event D)
      → IsOrderly p
      → IsPiped p
      → p.capture.write + 1 < 2 ^ 64
      → IsOwned p
      → IsOwned (step p e)
  unfolding step
  step-IsOwned p (begins id) o v w own = begin-IsOwned p id o v w own
  step-IsOwned p (sampled s) o v w own = sample-IsOwned p s v w own
  step-IsOwned p (finishes c) o v w own = finish-IsOwned p c v w own
  step-IsOwned p (ticks taken) o v w own = advance-IsOwned p.place taken p refl v w own
