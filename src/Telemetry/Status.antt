-- ===== src/Telemetry/Status.antt =====
-- The statuses that are published.
use zero_force_controller.Common.{◌+◌, ◌^◌, ◌<◌, List, [], ◌∷◌, arith, length}
use zero_force_controller.Double.{Double}
use zero_force_controller.Telemetry.{Pipeline, Event, step, run}
use zero_force_controller.Telemetry.Log.{IsPiped, IsFresh}
use zero_force_controller.Telemetry.Handshake.{IsOrderly, fresh-IsOrderly, step-IsOrderly}
use zero_force_controller.Telemetry.Passage.{step_delivers}
use zero_force_controller.Telemetry.Accounts.{Accurate, IsAccounted, IsOwned}
use zero_force_controller.Telemetry.Accounts.Counts.{step-IsAccounted, step_sequence}
use zero_force_controller.Telemetry.Accounts.Owned.{step-IsOwned, queued_empty}

module _ {D : Type 0} ⦃d : Double D⦄ where
  run_from :
      (p : Pipeline D) (es : List (Event D))
      → IsOrderly p
      → IsPiped p
      → IsOwned p
      → IsAccounted p
      → p.capture.write + length es < 2 ^ 64
      → p.capture.sequence + length es < 2 ^ 64
      → Accurate (run p es).log
  unfolding run
  run_from p [] o v own a w q = a.accurate
  run_from p (e ∷ es) o v own a w q =
      let (v', w', _) = step_delivers p e v (omega arith) in
      let s = step_sequence p e in
      run_from (step p e) es (step-IsOrderly p e o) v' (step-IsOwned p e o v (omega arith) own)
        (step-IsAccounted p e o (omega arith) (omega arith) own a) (omega arith) (omega arith)

  fresh_accounts : (p : Pipeline D) → IsFresh p → IsOwned p × IsAccounted p
  fresh_accounts p f =
      let own : IsOwned p = ground (arith, queued_empty p) in
      let a : IsAccounted p = ground arith in (own, a)

  -- Every status that is published names the trial that began last and has accounts for every sample
  -- of it: those that the topic took, those that it refused and those that the ring dropped add up to
  -- the final sequence number. A status that says that the capture is complete means that the topic
  -- took every sample. This holds for a pipeline that starts fresh and any interleaving of the
  -- controller's calls with the steps of the drain, of fewer events than leave the counters below
  -- 2 ^ 64.
  pub run-Accurate :
      (p : Pipeline D) (es : List (Event D))
      → IsFresh p
      → p.capture.write + length es < 2 ^ 64
      → Accurate (run p es).log
  run-Accurate p es f w =
      let (own, a) = fresh_accounts p f in
      run_from p es (fresh-IsOrderly p f) f.valid own a w (omega arith)
