-- ===== src/Simulation.antt =====
-- packages/zfc_simulation/include/zfc_simulation/force_command.hpp and src/world_force.cpp: the
-- plugin that pushes the simulated tool. A message is handled under the mutex, so it is one step. The
-- clock, the pause and whether the link is in the world are arguments of a step.
pub mod Push
use Prim.Native.String.{String}
use text.Mathlib.Text.{◌==◌ as str_eq}
use zero_force_controller.Common.{
  ℕ, Bool, true, false, not, ◌&&◌, ◌||◌, Option, none, some, List, [], ◌∷◌, ◌==◌, if◌then◌else◌,
}
use zero_force_controller.Common.Int.{ℤ, pos, ◌-ℤ◌, ltb_ℤ, leb_ℤ}
use zero_force_controller.Double.{Double, nought, clamp}

pub record ForceCommand (D : Type 0) : Type 0 where
  pub force : D
  pub received_ns : ℤ
  pub enabled : Bool

-- `ignition::msgs::EntityWrench`; `is_link` is its entity's type.
pub record EntityWrench (D : Type 0) : Type 0 where
  pub name : String
  pub is_link : Bool
  pub id : ℕ
  pub force_x : D
  pub force_y : D
  pub force_z : D
  pub torque_x : D
  pub torque_y : D
  pub torque_z : D

-- a wrench with the time of its receipt, and a release or an enabling
pub data Message (D : Type 0) : Type 0 where
  wrench : EntityWrench D → ℤ → Message D
  enable : Bool → Message D

pub record WorldForce (D : Type 0) : Type 0 where
  pub command : ForceCommand D
  pub linked : Bool

abbrev pub timeout_ns : ℤ
timeout_ns = pos 500_000_000

abbrev pub same : Bool → Bool → Bool
same a b = if a then b else not b

module _ {D : Type 0} ⦃d : Double D⦄ where
  open d use {eq, is_finite, of_int, negate}

  -- `bound_n`
  abbrev pub bound : D
  bound = of_int (pos 10)

  -- `ForceCommand{}`
  abbrev pub fresh_command : ForceCommand D
  fresh_command = record { force = nought; received_ns = pos 0; enabled = true }

  unfoldable pub set_enabled : Bool → ForceCommand D → ForceCommand D
  set_enabled value c = record c { enabled = value; force = nought; received_ns = pos 0 }

  unfoldable pub receive : D → ℤ → Bool → ForceCommand D → ForceCommand D
  receive value now correct_target c = record c {
    force =
        if c.enabled && correct_target && is_finite value
        then clamp value (negate bound) bound
        else nought;
    received_ns = now;
  }

  unfoldable pub value : ℤ → ForceCommand D → D
  value now c =
      if ltb_ℤ (pos 0) c.received_ns
        && leb_ℤ c.received_ns now
        && leb_ℤ (now -ℤ c.received_ns) timeout_ns
      then c.force
      else nought

  -- the test of `WorldForce::receive`
  unfoldable pub is_push : EntityWrench D → Bool
  is_push w =
      str_eq w.name "stage::tool_link"
      && w.is_link
      && w.id == 0
      && eq w.force_x nought
      && eq w.force_y nought
      && eq w.torque_x nought
      && eq w.torque_y nought
      && eq w.torque_z nought

  -- `WorldForce::receive` and `WorldForce::enable`
  unfoldable pub handle : Message D → ForceCommand D → ForceCommand D
  handle (wrench w now) c = receive w.force_z now (is_push w) c
  handle (enable b) c = if same b c.enabled then c else set_enabled b c

  -- `PreUpdate`: the force that is applied and published, and the acknowledgment
  unfoldable pub pre_update : Bool → Bool → ℤ → WorldForce D → Option (D × Bool) × WorldForce D
  pre_update paused found now w =
      let linked = w.linked || found in
      let w' = record w { linked = linked } in
      if paused
      then (none, w)
      else (if linked then (some (value now w.command, w.command.enabled), w') else (none, w'))
