-- ===== src/Output.antt =====
-- packages/zfc_interfaces/include/zfc_interfaces/command_output.hpp: what is written to the command
-- interface. `none` is `false`: the interface is left alone.
pub mod Hold
use zero_force_controller.Common.{Bool, true, false, not, ◌&&◌, Option, none, some, if◌then◌else◌}
use zero_force_controller.Double.{Double}

pub record CommandOutput (D : Type 0) : Type 0 where
  pub finite_fault_hold : Bool
  pub last_finite : D
  pub fault_latched : Bool

module _ {D : Type 0} ⦃d : Double D⦄ where
  open d use {is_finite, nan}

  -- `CommandOutput{}`
  abbrev pub fresh_output : CommandOutput D
  fresh_output = record { finite_fault_hold = false; last_finite = nan; fault_latched = false }

  unfoldable pub settle : CommandOutput D → D → D → CommandOutput D
  settle o requested measured =
      if is_finite requested
      then record o { last_finite = requested; fault_latched = false }
      else record o {
        last_finite = if not o.fault_latched && is_finite measured then measured else o.last_finite;
        fault_latched = true;
      }

  unfoldable pub resolve : CommandOutput D → D → D → Option D × CommandOutput D
  unfolding settle
  resolve o requested measured =
      if not o.finite_fault_hold
      then (some requested, if is_finite requested then record o { last_finite = requested } else o)
      else (let o' = settle o requested measured in
          (if not (is_finite o'.last_finite) then none else some o'.last_finite, o'))
