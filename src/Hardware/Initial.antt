-- ===== src/Hardware/Initial.antt =====
-- What a successful `on_init` has checked.
use Prim.Native.String.{String}
use mathlib.Core.List.{Perm}
use zero_force_controller.Common.{
  ◌≡◌, ◌⊎◌, inl, refl, sym, ◌∙◌, Bool, true, false, not, ◌&&◌, ◌||◌, Option, List, [], ◌∷◌, arith,
}
use zero_force_controller.Common.Int.{ℤ}
use zero_force_controller.Double.{Double, nought}
use zero_force_controller.Ethercat.System.{configured}
use zero_force_controller.Hardware.{Hardware}
use zero_force_controller.Hardware.Lifecycle.{reset}
use zero_force_controller.Hardware.Calls.{IsConsistent}
use zero_force_controller.Hardware.Init.{
  HardwareInfo, Startup, interfaces, command_name, parse_parameter, parse, check_all, on_init,
}
use zero_force_controller.Hardware.Declared.{
  declared, commanded, resources, complete_lem, check_all_lem,
}

module _ {D : Type 0} ⦃d : Double D⦄ where
  open d use {le, lt, is_finite, lit}

  -- a finite time above 0, of at most 300 seconds
  abbrev pub is_timeout : D → Bool
  is_timeout t = is_finite t && not (le t nought) && not (lt (lit 300 0) t)

  -- The timeout is the old one, or one that was checked.
  abbrev pub IsKept : D → D → Type 0
  IsKept old new = (new ≡ old) ⊎ (is_timeout new ≡ true)

  module _ (stod : String → Option (D × Bool)) (from_chars : String → Option (ℤ × Bool)) where
    parameter_timeout :
        (key value : String) (s : Startup D)
        → (parse_parameter stod from_chars key value s).0 ≡ true
        → IsKept s.timeout (parse_parameter stod from_chars key value s).1.timeout
    unfolding parse_parameter
    parameter_timeout key value s h = ground arith

    parse_timeout :
        (params : List (String × String)) (s : Startup D)
        → (parse stod from_chars params s).0 ≡ true
        → IsKept s.timeout (parse stod from_chars params s).1.timeout
    unfolding parse
    parse_timeout [] s h = inl refl
    parse_timeout ((key, value) ∷ rest) s h =
        let s' = (parse_parameter stod from_chars key value s).1 in
        ground (arith, parameter_timeout key value s, parse_timeout rest s')

module _ {Image D : Type 0} ⦃d : Double D⦄ where
  -- A description that `on_init` accepts, for a hardware `h` that becomes `h'`.
  pub record IsInitial (info : HardwareInfo) (h h' : Hardware Image D) : Type 0 where
    pub closed : (configured h.core || h.active) ≡ false
    pub states : Perm interfaces (declared (resources info))
    pub commands : commanded (resources info) ≡ command_name ∷ []
    pub timeout : IsKept h.startup_timeout h'.startup_timeout
    pub consistent : IsConsistent h'

  timeout-IsConsistent :
      (h : Hardware Image D) (t : D) → IsConsistent (record (reset h) { startup_timeout = t })
  unfolding reset
  timeout-IsConsistent h t = ground arith

  -- `on_init` accepts a description only while no session is open. The state interfaces that it
  -- declares are then the five of the code, each once, in some order; the only command interface is
  -- `carriage/position`; the startup timeout is the one of before, or finite, positive and at most
  -- 300 s; and the hardware is consistent.
  pub on_init-IsInitial :
      (stod : String → Option (D × Bool)) (from_chars : String → Option (ℤ × Bool))
      (accepted : Bool) (info : HardwareInfo) (h : Hardware Image D)
      → (on_init stod from_chars accepted info h).0 ≡ true
      → IsInitial info h (on_init stod from_chars accepted info h).2
  unfolding on_init
  on_init-IsInitial stod from_chars accepted info h ok =
      let fresh : Startup D = record { timeout = h.startup_timeout; quiet = false } in
      let (parsed, s) = parse stod from_chars info.parameters fresh in
      let (free, good, all) : ((configured h.core || h.active || not accepted) ≡ false)
          × (parsed ≡ true)
          × (check_all info ≡ true) =
        ground arith in
      let (p, c) = complete_lem (resources info) (sym (check_all_lem info) ∙ all) in
      rw free (record {
        closed = ground arith;
        states = p;
        commands = c;
        timeout = parse_timeout stod from_chars info.parameters fresh good;
        consistent = timeout-IsConsistent h s.timeout;
      })
