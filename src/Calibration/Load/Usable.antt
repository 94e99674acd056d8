-- ===== src/Calibration/Load/Usable.antt =====
-- What a calibration that is loaded satisfies.
use Prim.Native.String.{String}
use text.Mathlib.TextEquality.{eq_iff}
use zero_force_controller.Common.{
  ◌≡◌, refl, Bool, true, false, not, ◌&&◌, Option, none, some, arith, inl, inr, Option-cases, ap,
  ◌∙◌,
}
use zero_force_controller.Common.Int.{i32_min, i32_max}
use zero_force_controller.Double.{Double, nought}
use zero_force_controller.Calibration.{SiCalibration, force}
use zero_force_controller.Calibration.Load.{
  ◌>>=◌, ◌>>◌, require, Parameters, is_text, parse_number, number, boolean, zero_counts, load_axis,
  load_bounds, load_velocity, confirm, load,
}

bind_lem :
    {A B : Type 0} (m : Option A) (f : A → Option B) (b : B)
    → (m >>= f) ≡ some b
    → (a : A) × (m ≡ some a) × (f a ≡ some b)
bind_lem none f b h = ground arith
bind_lem (some a) f b h = (a, refl, h)

require_lem :
    {B : Type 0} (test : Bool) (k : Option B) (b : B)
    → (require test >> k) ≡ some b
    → (test ≡ true) × (k ≡ some b)
require_lem true k b h = (refl, h)
require_lem false k b h = ground arith

module _ {D : Type 0} ⦃d : Double D⦄ (stod : String → Option (D × Bool)) (params : Parameters) where
  open d use {le, eq, mul, is_finite, lit}

  parse_number_lem :
      (nonzero : Bool) (r : Option (D × Bool)) (x : D)
      → parse_number nonzero r ≡ some x
      → (is_finite x ≡ true) × (nonzero ≡ true → eq x nought ≡ false)
  unfolding parse_number
  parse_number_lem nonzero r x h = ground arith

  number_lem :
      (key : String) (nonzero : Bool) (x : D)
      → number stod params key nonzero ≡ some x
      → (is_finite x ≡ true) × (nonzero ≡ true → eq x nought ≡ false)
  number_lem key nonzero x h = elim (Option-cases (params key)) [
    | inl e ↦ let bad : none ≡ some x = rw (e, number) at h in cc
    | inr (text, e) ↦ parse_number_lem nonzero (stod text) x (rw (e, number) at h)
  ]

  -- the scale and the zero of an axis that may be used
  pub record IsUsableAxis (scale zero : D) : Type 0 where
    pub nonzero : eq scale nought ≡ false
    pub low : is_finite (force scale zero i32_min) ≡ true
    pub high : is_finite (force scale zero i32_max) ≡ true

  load_axis_lem :
      (scale_key zero_key : String) (r : D × D)
      → load_axis stod params scale_key zero_key ≡ some r
      → IsUsableAxis r.0 r.1
  unfolding load_axis
  load_axis_lem scale_key zero_key r h =
      let (scale, reads, h1) = bind_lem (number stod params scale_key true) _ r h in
      let (zero, offsets, h2) = bind_lem (zero_counts stod params zero_key) _ r h1 in
      let (low, h3) = require_lem (is_finite (force scale zero i32_min)) _ r h2 in
      let (high, h4) = require_lem (is_finite (force scale zero i32_max)) _ r h3 in
      let (finite, nonzero) = number_lem scale_key true scale reads in
      ground (arith, h4, nonzero, low, high)

  load_bounds_lem :
      (on : Bool) (c r : SiCalibration D)
      → load_bounds stod params on c ≡ some r
      → (r.soft_bounds_enabled ≡ true → le r.upper r.lower ≡ false)
        × (record r { soft_bounds_enabled = false; lower = c.lower; upper = c.upper }
            ≡ record c { soft_bounds_enabled = false })
  unfolding load_bounds
  load_bounds_lem false c r h = ground arith
  load_bounds_lem true c r h =
      let (lower, low, h1) = bind_lem (number stod params "soft_lower_m" false) _ r h in
      let (upper, up, h2) = bind_lem (number stod params "soft_upper_m" false) _ r h1 in
      let (ordered, h3) = require_lem (not (le upper lower)) _ r h2 in ground (arith, ordered, h3)

  boolean_lem : (key : String) → boolean params key false ≡ some true → params key ≡ some "true"
  boolean_lem key h = elim (Option-cases (params key)) [
    | inl e ↦ let bad : some false ≡ some true = rw (e, boolean) at h in ground (arith, bad)
    | inr (text, e) ↦ ground (arith, e, rw (e, boolean) at h, (eq_iff text "true").0)
  ]

  is_text_lem : (o : Option String) (t : String) → is_text o t ≡ true → o ≡ some t
  is_text_lem none t h = ground arith
  is_text_lem (some s) t h = rw ((eq_iff s t).0 h) refl

  agreed_lem :
      (confirmed frame mapping : Bool)
      → (confirmed && frame && mapping) ≡ true
      → (confirmed ≡ true) × (frame ≡ true) × (mapping ≡ true)
  agreed_lem confirmed frame mapping h = ground arith

  left_lem : (a b : Bool) → (a && b) ≡ true → a ≡ true
  left_lem a b h = ground arith

  -- A calibration that may be used.
  pub record IsUsable (c : SiCalibration D) : Type 0 where
    pub scale_finite : is_finite c.m_per_count ≡ true
    pub scale_nonzero : eq c.m_per_count nought ≡ false
    pub range : is_finite (mul c.m_per_count (lit 4_294_967_295 0)) ≡ true
    pub x : IsUsableAxis c.force_scale.x c.force_zero.x
    pub y : IsUsableAxis c.force_scale.y c.force_zero.y
    pub z : IsUsableAxis c.force_scale.z c.force_zero.z
    pub bounds_ordered : c.soft_bounds_enabled ≡ true → le c.upper c.lower ≡ false
    pub unreferenced : c.reference_valid ≡ false
    pub confirmed : params "conventions_confirmed" ≡ some "true"
    pub frame : params "force_frame" ≡ some "load_cell_link"
    pub mapping : params "force_channel_mapping" ≡ some "x,y,z"

  confirm_lem :
      (from_encoder : Bool) (built c : SiCalibration D)
      → is_finite built.m_per_count ≡ true
      → eq built.m_per_count nought ≡ false
      → IsUsableAxis built.force_scale.x built.force_zero.x
      → IsUsableAxis built.force_scale.y built.force_zero.y
      → IsUsableAxis built.force_scale.z built.force_zero.z
      → built.reference_valid ≡ false
      → confirm stod params from_encoder built ≡ some c
      → IsUsable c
  unfolding confirm
  confirm_lem from_encoder built c finite nonzero x y z free h =
      let (confirmed, b, h1) = bind_lem (boolean params "conventions_confirmed" false) _ c h in
      let (agreed, h2) = require_lem _ _ c h1 in
      let (ranged, h3) = require_lem _ _ c h2 in
      let (soft, e, h4) = bind_lem (boolean params "soft_bounds_enabled" false) _ c h3 in
      let (ordered, same) = load_bounds_lem soft built c h4 in
      let (sure, frame, mapping) = agreed_lem confirmed _ _ agreed in
      record {
        scale_finite = rw (ap (λ k. k.m_per_count) same) finite;
        scale_nonzero = rw (ap (λ k. k.m_per_count) same) nonzero;
        range = rw (ap (λ k. k.m_per_count) same) (left_lem _ _ ranged);
        x = rw (ap (λ k. k.force_scale.x) same, ap (λ k. k.force_zero.x) same) x;
        y = rw (ap (λ k. k.force_scale.y) same, ap (λ k. k.force_zero.y) same) y;
        z = rw (ap (λ k. k.force_scale.z) same, ap (λ k. k.force_zero.z) same) z;
        bounds_ordered = ordered;
        unreferenced = ap (λ k. k.reference_valid) same ∙ free;
        confirmed = boolean_lem "conventions_confirmed" (b ∙ ap some sure);
        frame = is_text_lem _ _ frame;
        mapping = is_text_lem _ _ mapping;
      }

  -- A calibration that is loaded has a finite, nonzero scale over the whole range of the encoder,
  -- force scales that are not zero and give finite forces at both ends of `int32_t`, ordered soft
  -- bounds where they are enabled, and no reference; and the parameters confirm its conventions.
  pub load_lem : (c : SiCalibration D) → load stod params ≡ some c → IsUsable c
  unfolding load
  load_lem c h =
      let (scale, reads, h1) = bind_lem (number stod params "m_per_count" true) _ c h in
      let (from_encoder, _, h2) = bind_lem (boolean params "velocity_from_encoder" true) _ c h1 in
      let (velocity_scale, _, h3) = bind_lem (load_velocity stod params from_encoder) _ c h2 in
      let (x, lx, h4) =
        bind_lem (load_axis stod params "force_x_newtons_per_count" "force_x_zero_counts") _ c h3 in
      let (y, ly, h5) =
        bind_lem (load_axis stod params "force_y_newtons_per_count" "force_y_zero_counts") _ c h4 in
      let (z, lz, h6) =
        bind_lem (load_axis stod params "force_z_newtons_per_count" "force_z_zero_counts") _ c h5 in
      let (finite, nonzero) = number_lem "m_per_count" true scale reads in
      confirm_lem from_encoder _ c finite (nonzero refl)
        (load_axis_lem "force_x_newtons_per_count" "force_x_zero_counts" x lx)
        (load_axis_lem "force_y_newtons_per_count" "force_y_zero_counts" y ly)
        (load_axis_lem "force_z_newtons_per_count" "force_z_zero_counts" z lz) refl h6
