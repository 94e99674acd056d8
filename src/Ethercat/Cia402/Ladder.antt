-- ===== src/Ethercat/Cia402/Ladder.antt =====
-- `UpdateCSPEnableState` against the drive's state machine of CiA 402: the drive moves when it likes,
-- and only as it is documented to under the control word of the cycle.
use zero_force_controller.Common.{
  ℕ, suc, ◌+◌, ◌*◌, ◌/◌, ◌%◌, ◌≡◌, ◌≢◌, ◌≤◌, ◌<◌, ◌∙◌, refl, ap, inl, inr, Bool, true, false, ◌↔◌,
  Bool-cases, ◌&&◌, ◌==◌, arith,
}
use zero_force_controller.Ethercat.Clearpath.{TxPdos, Command}
use zero_force_controller.Ethercat.Cia402.{
  State, operation_enabled, switch_on_disabled, ready_to_switch_on, switched_on, quick_stop_active,
  fault_reaction_active, fault, not_ready_to_switch_on, unknown, decode_statusword, transition,
  reach_op, update_csp_enable_state, mode_csp,
}

-- The commands of the control word, by its bits 0 to 3 and 7.
abbrev asks_shutdown : ℕ → Bool
asks_shutdown w = (w % 8 == 6) && (w / 128 % 2 == 0)

abbrev asks_switch_on : ℕ → Bool
asks_switch_on w = (w % 8 == 7) && (w / 128 % 2 == 0)

abbrev asks_enable : ℕ → Bool
asks_enable w = (w % 16 == 15) && (w / 128 % 2 == 0)

abbrev asks_disable : ℕ → Bool
asks_disable w = (w % 16 == 7) && (w / 128 % 2 == 0)

abbrev asks_quick_stop : ℕ → Bool
asks_quick_stop w = (w / 2 % 4 == 1) && (w / 128 % 2 == 0)

abbrev asks_no_voltage : ℕ → Bool
asks_no_voltage w = (w / 2 % 2 == 0) && (w / 128 % 2 == 0)

-- the fault reset is a rising edge of bit 7
abbrev asks_reset : ℕ → ℕ → Bool
asks_reset previous w = (previous / 128 % 2 == 0) && (w / 128 % 2 == 1)

-- A move of the drive, but for a new fault, in a cycle with control word `w` behind one with control
-- word `previous`.
pub data Move (previous w : ℕ) : State → State → Type 0 where
  boots : Move previous w not_ready_to_switch_on switch_on_disabled
  readies : asks_shutdown w ≡ true → Move previous w switch_on_disabled ready_to_switch_on
  switches_on : asks_switch_on w ≡ true → Move previous w ready_to_switch_on switched_on
  enables : asks_enable w ≡ true → Move previous w switched_on operation_enabled
  disables : asks_disable w ≡ true → Move previous w operation_enabled switched_on
  switches_off : asks_shutdown w ≡ true → Move previous w switched_on ready_to_switch_on
  stops_ready : asks_quick_stop w ≡ true → Move previous w ready_to_switch_on switch_on_disabled
  drops_ready : asks_no_voltage w ≡ true → Move previous w ready_to_switch_on switch_on_disabled
  shuts_down : asks_shutdown w ≡ true → Move previous w operation_enabled ready_to_switch_on
  drops_enabled : asks_no_voltage w ≡ true → Move previous w operation_enabled switch_on_disabled
  stops_on : asks_quick_stop w ≡ true → Move previous w switched_on switch_on_disabled
  drops_on : asks_no_voltage w ≡ true → Move previous w switched_on switch_on_disabled
  stops : asks_quick_stop w ≡ true → Move previous w operation_enabled quick_stop_active
  ends_stop : Move previous w quick_stop_active switch_on_disabled
  resumes : asks_enable w ≡ true → Move previous w quick_stop_active operation_enabled
  reacted : Move previous w fault_reaction_active fault
  resets : asks_reset previous w ≡ true → Move previous w fault switch_on_disabled

-- the control word of a cycle
abbrev pub word_of : TxPdos → Command → ℕ
word_of feedback c = (update_csp_enable_state feedback c).1.controlword

-- Cycles of `UpdateCSPEnableState` with a drive that reports its state, from the control word `p` and
-- the state `s` to `w` and `t`: `n` moves of the drive, `k` new faults, and any number of cycles in
-- which it waits.
pub data Cycles : (p : ℕ) (s : State) (n k w : ℕ) (t : State) → Type 0 where
  here : {w : ℕ} {t : State} → Cycles w t 0 0 w t
  waits :
      {p n k w : ℕ} {s t : State} (feedback : TxPdos) (c : Command)
      → decode_statusword feedback.statusword ≡ s
      → Cycles (word_of feedback c) s n k w t
      → Cycles p s n k w t
  moves :
      {p n k w : ℕ} {s u t : State} (feedback : TxPdos) (c : Command)
      → decode_statusword feedback.statusword ≡ s
      → Move p (word_of feedback c) s u
      → Cycles (word_of feedback c) u n k w t
      → Cycles p s (suc n) k w t
  breaks :
      {p n k w : ℕ} {s t : State} (feedback : TxPdos) (c : Command)
      → decode_statusword feedback.statusword ≡ s
      → Cycles (word_of feedback c) fault_reaction_active n k w t
      → Cycles p s n (suc k) w t

-- the moves that are left to Operation Enabled
abbrev pub distance : State → ℕ
distance operation_enabled = 0
distance switched_on = 1
distance ready_to_switch_on = 2
distance switch_on_disabled = 3
distance not_ready_to_switch_on = 4
distance quick_stop_active = 4
distance fault = 4
distance fault_reaction_active = 5
distance unknown = 0

word_lem :
    (feedback : TxPdos) (c : Command)
    → word_of feedback c ≡ (transition (decode_statusword feedback.statusword)).0
unfolding update_csp_enable_state reach_op
word_lem feedback c = ground arith

closer :
    {p w : ℕ} {s u : State}
    → Move p w s u
    → w ≡ (transition s).0
    → (distance u + 1 ≤ distance s) × (u ≢ unknown)
unfolding transition
closer boots e = ground arith
closer (readies h) e = ground arith
closer (switches_on h) e = ground arith
closer (enables h) e = ground arith
closer (disables h) e = ground arith
closer (switches_off h) e = ground arith
closer (stops_ready h) e = ground arith
closer (drops_ready h) e = ground arith
closer (shuts_down h) e = ground arith
closer (drops_enabled h) e = ground arith
closer (stops_on h) e = ground arith
closer (drops_on h) e = ground arith
closer (stops h) e = ground arith
closer ends_stop e = ground arith
closer (resumes h) e = ground arith
closer reacted e = ground arith
closer (resets h) e = ground arith

asked :
    (feedback : TxPdos) (c : Command) {s : State}
    → decode_statusword feedback.statusword ≡ s
    → word_of feedback c ≡ (transition s).0
asked feedback c e = word_lem feedback c ∙ ap (λ k. (transition k).0) e

bounded :
    {p n k w : ℕ} {s t : State}
    → s ≢ unknown
    → Cycles p s n k w t
    → (n + distance t ≤ distance s + 5 * k) × (t ≢ unknown)
bounded known here = (omega arith, known)
bounded known (waits feedback c e r) = bounded known r
bounded known (moves feedback c e m r) =
    let (near, knows) = closer m (asked feedback c e) in
    let (b, end) = bounded knows r in (omega arith, end)
bounded known (breaks feedback c e r) =
    let (b, end) = bounded (λ q. ground arith) r in (omega arith, end)

-- The next cycle, from the state `t`, with the control word `w` behind `p`: enabled, and only a new
-- fault ends that; or a move towards Operation Enabled is open to the drive; or a fault whose reset
-- was asked for already, so that there is no edge and no move.
pub data Outlook (p w : ℕ) (t : State) : Type 0 where
  enabled : t ≡ operation_enabled → ((u : State) → ¬ Move p w t u) → Outlook p w t
  ahead : (u : State) → Move p w t u → distance u < distance t → Outlook p w t
  held :
      t ≡ fault → p / 128 % 2 ≡ 1 → w / 128 % 2 ≡ 1 → ((u : State) → ¬ Move p w t u) → Outlook p w t

from_fault : {p w : ℕ} {u : State} → Move p w fault u → asks_reset p w ≡ true
from_fault (resets h) = h

outlook : (p w : ℕ) (t : State) → t ≢ unknown → w ≡ (transition t).0 → Outlook p w t
unfolding transition
outlook p w operation_enabled known e =
    enabled refl (λ u m. let near = (closer m e).0 in omega arith)
outlook p w switched_on known e = ahead operation_enabled (enables (ground arith)) (omega arith)
outlook p w ready_to_switch_on known e =
    ahead switched_on (switches_on (ground arith)) (omega arith)
outlook p w switch_on_disabled known e =
    ahead ready_to_switch_on (readies (ground arith)) (omega arith)
outlook p w not_ready_to_switch_on known e = ahead switch_on_disabled boots (omega arith)
outlook p w quick_stop_active known e =
    ahead operation_enabled (resumes (ground arith)) (omega arith)
outlook p w fault_reaction_active known e = ahead fault reacted (omega arith)
outlook p w unknown known e = absurd (known refl)
outlook p w fault known e = elim (Bool-cases (p / 128 % 2 == 0)) [
  | inl q ↦ ahead switch_on_disabled (resets (ground arith)) (omega arith)
  | inr q ↦ held refl (ground arith) (ground arith) (λ u m. let r = from_fault m in ground arith)
]

-- `UpdateCSPEnableState` in one cycle with a drive that reports the state `t`
pub record IsAnswer (feedback : TxPdos) (c : Command) (t : State) : Type 0 where
  pub ready :
      ((update_csp_enable_state feedback c).0 ≡ true)
      ↔ ((t ≡ operation_enabled) × (feedback.mode_display ≡ mode_csp))
  pub mirrors :
      (update_csp_enable_state feedback c).0 ≡ false
      → (update_csp_enable_state feedback c).1.target_position ≡ feedback.actual_position

answer :
    (feedback : TxPdos) (c : Command) {t : State}
    → decode_statusword feedback.statusword ≡ t
    → IsAnswer feedback c t
unfolding update_csp_enable_state reach_op transition
answer feedback c e = record {
  ready = (λ r. ground arith, λ r. ground arith);
  mirrors = λ r. ground arith;
}

-- Any cycles of `UpdateCSPEnableState`, from a state that the decoder knows, with a drive that reports
-- its state, waits as long as it likes and otherwise makes the moves that CiA 402 documents under the
-- control words it is sent, with new faults at any time. The moves that were made and those that are
-- left to Operation Enabled are no more than those that were left at the start and five for each
-- fault. In the next cycle the drive is enabled and nothing but a fault ends that, or a move towards
-- Operation Enabled is open to it, or it is in a fault whose reset was already asked for in the cycle
-- before, so that there is no edge and no move. The call returns true exactly if the drive is enabled
-- and displays CSP; until then the position target is the actual position.
pub cycles_lem :
    {p n k w : ℕ} {s t : State} (feedback : TxPdos) (c : Command)
    → s ≢ unknown
    → Cycles p s n k w t
    → decode_statusword feedback.statusword ≡ t
    → (n + distance t ≤ distance s + 5 * k)
      × Outlook w (word_of feedback c) t
      × IsAnswer feedback c t
cycles_lem feedback c known r e =
    let (near, knows) = bounded known r in
    (near, outlook _ _ _ knows (asked feedback c e), answer feedback c e)
