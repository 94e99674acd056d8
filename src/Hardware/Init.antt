-- ===== src/Hardware/Init.antt =====
-- `on_init`: the parameters of the interface itself, and the interfaces that the description of the
-- robot declares. `stod` and `from_chars` stand for the standard library's: the value, and whether it
-- used the whole text.
use Prim.Native.String.{String, ◌++◌ as str_append}
use text.Mathlib.Text.{◌==◌ as str_eq}
use zero_force_controller.Common.{
  ℕ, ◌+◌, Bool, true, false, not, ◌&&◌, ◌||◌, Option, none, some, List, [], ◌∷◌, ◌==◌,
  if◌then◌else◌,
}
use zero_force_controller.Common.Int.{ℤ, pos, eqb_ℤ}
use zero_force_controller.Double.{Double, nought}
use zero_force_controller.Ethercat.System.{configured}
use zero_force_controller.Hardware.{Hardware}
use zero_force_controller.Hardware.Lifecycle.{reset}

-- `ComponentInfo`: a joint, a sensor or a GPIO, with the names of its interfaces
pub record Component : Type 0 where
  pub name : String
  pub state_interfaces : List String
  pub command_interfaces : List String

pub record HardwareInfo : Type 0 where
  pub parameters : List (String × String)
  pub joints : List Component
  pub sensors : List Component
  pub gpios : List Component

-- what the parameters set
pub record Startup (D : Type 0) : Type 0 where
  pub timeout : D
  pub quiet : Bool

abbrev pub command_name : String
command_name = "carriage/position"

abbrev pub interfaces : List (String × String)
interfaces =
    ("carriage", "position")
    ∷ ("carriage", "velocity")
    ∷ ("load_cell", "force.x")
    ∷ ("load_cell", "force.y")
    ∷ ("load_cell", "force.z")
    ∷ []

abbrev pub is_one_of : String → List String → Bool
is_one_of key [] = false
is_one_of key (k ∷ ks) = str_eq key k || is_one_of key ks

-- `SiCalibration::parameter`
unfoldable pub is_calibration : String → Bool
is_calibration key = is_one_of key (
    "m_per_count" ∷ "velocity_from_encoder" ∷ "velocity_mps_per_raw_unit" ∷ "soft_bounds_enabled"
    ∷ "soft_lower_m" ∷ "soft_upper_m" ∷ "conventions_confirmed" ∷ "force_frame"
    ∷ "force_channel_mapping" ∷ "force_x_newtons_per_count" ∷ "force_y_newtons_per_count"
    ∷ "force_z_newtons_per_count" ∷ "force_x_zero_counts" ∷ "force_y_zero_counts"
    ∷ "force_z_zero_counts" ∷ [])

-- the first interface of that name that is not yet found
unfoldable pub claim : List (String × String) → List Bool → String → String → Option (List Bool)
claim [] found resource name = none
claim (i ∷ is) [] resource name = none
claim ((r, n) ∷ is) (f ∷ found) resource name =
    let rest = claim is found resource name in
    if str_eq resource r && str_eq name n && not f
    then some (true ∷ found)
    else elim rest [ none ↦ none | some found' ↦ some (f ∷ found') ]

unfoldable pub check_states : List Bool → String → List String → Option (List Bool)
check_states found resource [] = some found
check_states found resource (name ∷ names) = elim (claim interfaces found resource name) [
  | none ↦ none
  | some found' ↦ check_states found' resource names
]

unfoldable pub check_commands : ℕ → String → List String → Option ℕ
check_commands commands resource [] = some commands
check_commands commands resource (name ∷ names) =
    let full = str_append (str_append resource "/") name in
    let rest = check_commands (commands + 1) resource names in
    if not (str_eq full command_name) || not (commands + 1 == 1) then none else rest

-- the function `check` over all resources
unfoldable pub check : List Bool → ℕ → List Component → Option (List Bool × ℕ)
check found commands [] = some (found, commands)
check found commands (r ∷ rs) = elim (check_states found r.name r.state_interfaces) [
  | none ↦ none
  | some found' ↦ elim (check_commands commands r.name r.command_interfaces) [
    | none ↦ none
    | some commands' ↦ check found' commands' rs
  ]
]

abbrev pub all_found : List Bool → Bool
all_found [] = true
all_found (f ∷ fs) = f && all_found fs

abbrev pub complete : Option (List Bool × ℕ) → Bool
complete none = false
complete (some (found, commands)) = commands == 1 && all_found found

abbrev pub nothing_found : List Bool
nothing_found = false ∷ false ∷ false ∷ false ∷ false ∷ []

-- the joints, then the sensors, then the GPIOs
unfoldable pub check_all : HardwareInfo → Bool
check_all info = complete (elim (check nothing_found 0 info.joints) [
  | none ↦ none
  | some (f1, c1) ↦ elim (check f1 c1 info.sensors) [
    | none ↦ none
    | some (f2, c2) ↦ check f2 c2 info.gpios
  ]
])

module _ {D : Type 0} ⦃d : Double D⦄ where
  open d use {le, lt, is_finite, lit}

  -- One parameter; the Boolean says that it was accepted. A timeout that is rejected has been stored.
  unfoldable pub parse_parameter :
      (String → Option (D × Bool))
      → (String → Option (ℤ × Bool))
      → String
      → String
      → Startup D
      → Bool × Startup D
  parse_parameter stod from_chars key value s =
      if is_calibration key
      then (true, s)
      else if not
          (is_one_of key ("startup_timeout_seconds" ∷ "update_rate_hz" ∷ "diagnostic_mode" ∷ []))
      then (false, s)
      else if str_eq key "diagnostic_mode"
      then (if not (is_one_of value ("production" ∷ "quiet" ∷ []))
          then (false, s)
          else (true, record s { quiet = str_eq value "quiet" }))
      else if str_eq key "startup_timeout_seconds"
      then elim (stod value) [
        | none ↦ (false, s)
        | some (t, whole) ↦ (
          whole && is_finite t && not (le t nought) && not (lt (lit 300 0) t),
          record s { timeout = t },
        )
      ]
      else elim (from_chars value) [
        | none ↦ (false, s)
        | some (rate, whole) ↦ (whole && eqb_ℤ rate (pos 1000), s)
      ]

  -- the loop over the map, in the order of its entries
  unfoldable pub parse :
      (String → Option (D × Bool))
      → (String → Option (ℤ × Bool))
      → List (String × String)
      → Startup D
      → Bool × Startup D
  parse stod from_chars [] s = (true, s)
  parse stod from_chars ((key, value) ∷ rest) s =
      let (ok, s') = parse_parameter stod from_chars key value s in
      let later = parse stod from_chars rest s' in if ok then later else (false, s')

module _ {Image D : Type 0} ⦃d : Double D⦄ where
  -- `accepted` is what the base class says of the description. The result has the mode of the
  -- diagnostics.
  unfoldable pub on_init :
      (String → Option (D × Bool))
      → (String → Option (ℤ × Bool))
      → Bool
      → HardwareInfo
      → Hardware Image D
      → Bool × Bool × Hardware Image D
  on_init stod from_chars accepted info h =
      if configured h.core || h.active || not accepted
      then (false, false, h)
      else (let fresh : Startup D = record { timeout = h.startup_timeout; quiet = false } in
          let (ok, s) = parse stod from_chars info.parameters fresh in
          (ok && check_all info, s.quiet, record (reset h) { startup_timeout = s.timeout }))
