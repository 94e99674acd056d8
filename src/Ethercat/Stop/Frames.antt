-- ===== src/Ethercat/Stop/Frames.antt =====
-- The whole stop sequence.
use zero_force_controller.Common.{
  replicate, ℕ, zero, suc, ◌+◌, ◌≤◌, ◌≡◌, refl, true, false, List, [], ◌∷◌, ◌++◌, ◌∙◌, inl, inr,
  Bool-cases, arith, if◌then◌else◌,
}
use zero_force_controller.Ethercat.Clearpath.{TxPdos, Command, no_command}
use zero_force_controller.Ethercat.Cia402.{
  mode_csp, enable_operation, shutdown, disable_voltage, is_operation_enabled_csp,
}
use zero_force_controller.Ethercat.Stop.{StopSequence, done, start, next, word}

-- the commands of `while (!stop.done()) … stop.next()`, as far as the fuel goes
unfoldable pub frames : ℕ → StopSequence → List Command
frames zero s = []
frames (suc n) s = elim (done s) [ true ↦ [] | false ↦ (next s).0 ∷ frames n (next s).1 ]

abbrev pub stopping : TxPdos → ℕ → Command
stopping motor word = record no_command {
  controlword = word;
  mode_op = mode_csp;
  target_position = motor.actual_position;
}

abbrev pub ramp_down : TxPdos → List Command
ramp_down m = replicate 50 (stopping m shutdown) ++ replicate 50 (stopping m disable_voltage)

from_enabled :
    (m : TxPdos)
    → is_operation_enabled_csp m ≡ true
    → frames 120 (start m) ≡ replicate 20 (stopping m enable_operation) ++ ramp_down m
unfolding frames start next
from_enabled m h = rw h refl

from_disabled :
    (m : TxPdos) → is_operation_enabled_csp m ≡ false → frames 120 (start m) ≡ ramp_down m
unfolding frames start next
from_disabled m h = rw h refl

-- Fuel beyond the cycles that are left changes nothing.
frames_enough :
    (n k : ℕ) (s : StopSequence) → 120 ≤ s.cycle + n → 120 ≤ s.cycle + k → frames n s ≡ frames k s
unfolding frames next
frames_enough zero zero s h g = refl
frames_enough zero (suc k) s h g = ground arith
frames_enough (suc n) zero s h g = ground arith
frames_enough (suc n) (suc k) s h g = ground (arith, frames_enough n k (next s).1)

-- A stop lasts 120 cycles for a drive that is enabled in CSP and 100 for any other: with fuel for
-- 120 the loop ends by its test. The commands hold the position that was measured at the start, in
-- CSP: 20 times Enable Operation for a drive that is enabled and for no other, then 50 times
-- Shutdown, then 50 times Disable Voltage.
pub frames-start :
    (n : ℕ) (m : TxPdos)
    → 120 ≤ n
    → frames n (start m) ≡ (
        if is_operation_enabled_csp m
        then replicate 20 (stopping m enable_operation) ++ ramp_down m
        else ramp_down m)
frames-start n m h = frames_enough n 120 (start m) (omega arith) (omega arith) ∙ at_120
  where
    at_120 : frames 120 (start m) ≡ (
        if is_operation_enabled_csp m
        then replicate 20 (stopping m enable_operation) ++ ramp_down m
        else ramp_down m)
    at_120 = elim (Bool-cases (is_operation_enabled_csp m)) [
      | inl e ↦ rw e (from_enabled m e)
      | inr e ↦ rw e (from_disabled m e)
    ]
