-- ===== src/Calibration/Load.antt =====
-- `SiCalibration::load`: the installation parameters, checked before any input or output.
pub mod Usable
use Prim.Native.String.{String}
use text.Mathlib.Text.{◌==◌ as str_eq}
use zero_force_controller.Common.{
  Bool, true, false, not, ◌&&◌, ◌||◌, Option, none, some, if◌then◌else◌,
}
use zero_force_controller.Common.Int.{i32_min, i32_max}
use zero_force_controller.Double.{Double, nought}
use zero_force_controller.Calibration.{SiCalibration, no_calibration, force}

infixl 5 ◌>>=◌ ◌>>◌
abbrev pub ◌>>=◌ {ℓ κ} : {A : Type ℓ} {B : Type κ} → Option A → (A → Option B) → Option B
none >>= f = none
some a >>= f = f a

abbrev pub ◌>>◌ {ℓ} : {B : Type ℓ} → Option (Unit {0}) → Option B → Option B
m >> k = m >>= λ _. k

-- `if (!ok) throw …;`
abbrev pub require : Bool → Option (Unit {0})
require true = some tt
require false = none

-- The parameters as a map, and `std::stod`: the value, and whether it used the whole text.
abbrev pub Parameters : Type 0
Parameters = String → Option String

abbrev pub is_text : Option String → String → Bool
is_text none t = false
is_text (some s) t = str_eq s t

abbrev pub boolean : Parameters → String → Bool → Option Bool
boolean params key fallback = elim (params key) [
  | none ↦ some fallback
  | some text ↦
      if str_eq text "true" then some true else if str_eq text "false" then some false else none
]

module _ {D : Type 0} ⦃d : Double D⦄ where
  open d use {eq, is_finite}

  -- a text that must be a finite number
  unfoldable pub parse_number : Bool → Option (D × Bool) → Option D
  parse_number nonzero none = none
  parse_number nonzero (some (result, whole)) =
      if not whole || not (is_finite result) || (nonzero && eq result nought)
      then none
      else some result

module _ {D : Type 0} ⦃d : Double D⦄ (stod : String → Option (D × Bool)) (params : Parameters) where
  open d use {lt, le, eq, mul, is_finite, lit}

  abbrev pub number : String → Bool → Option D
  number key nonzero = elim (params key) [
    | none ↦ none
    | some text ↦ parse_number nonzero (stod text)
  ]

  -- the zero of an axis, which may be left out
  abbrev pub zero_counts : String → Option D
  zero_counts key = elim (params key) [ none ↦ some nought | some text ↦ number key false ]

  -- the scale and the zero of one axis
  unfoldable pub load_axis : String → String → Option (D × D)
  load_axis scale_key zero_key = do
    scale ← number scale_key true
    zero ← zero_counts zero_key
    require (is_finite (force scale zero i32_min))
    require (is_finite (force scale zero i32_max))
    some (scale, zero)

  -- the soft bounds, if they are enabled
  unfoldable pub load_bounds : Bool → SiCalibration D → Option (SiCalibration D)
  load_bounds false c = some (record c { soft_bounds_enabled = false })
  load_bounds true c = do
    lower ← number "soft_lower_m" false
    upper ← number "soft_upper_m" false
    require (not (le upper lower))
    some (record c { soft_bounds_enabled = true; lower = lower; upper = upper })

  abbrev pub load_velocity : Bool → Option D
  load_velocity true = some d.nan
  load_velocity false = number "velocity_mps_per_raw_unit" true

  -- the checks behind the numbers
  unfoldable pub confirm : Bool → SiCalibration D → Option (SiCalibration D)
  confirm from_encoder c = do
    confirmed ← boolean params "conventions_confirmed" false
    require (
        confirmed
        && is_text (params "force_frame") "load_cell_link"
        && is_text (params "force_channel_mapping") "x,y,z")
    require (
        is_finite (mul c.m_per_count (lit 4_294_967_295 0))
        && (from_encoder || is_finite (mul c.velocity_scale (lit 2_147_483_648 0))))
    soft_bounds ← boolean params "soft_bounds_enabled" false
    load_bounds soft_bounds c

  unfoldable pub load : Option (SiCalibration D)
  load = do
    m_per_count ← number "m_per_count" true
    from_encoder ← boolean params "velocity_from_encoder" true
    velocity_scale ← load_velocity from_encoder
    x ← load_axis "force_x_newtons_per_count" "force_x_zero_counts"
    y ← load_axis "force_y_newtons_per_count" "force_y_zero_counts"
    z ← load_axis "force_z_newtons_per_count" "force_z_zero_counts"
    confirm from_encoder (record no_calibration {
      m_per_count = m_per_count;
      velocity_from_encoder = from_encoder;
      velocity_scale = velocity_scale;
      force_scale = record { x = x.0; y = y.0; z = z.0 };
      force_zero = record { x = x.1; y = y.1; z = z.1 };
    })
