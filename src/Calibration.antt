-- ===== src/Calibration.antt =====
-- packages/zfc_ethercat_hardware/include/zfc_ethercat_hardware/si_calibration.hpp: SI units over
-- encoder counts, and the encoder session that finds the reference. `none` is an exception or
-- `false`, with the output argument left alone.
pub mod Session
pub mod Safety
pub mod Load
use zero_force_controller.Common.{
  ℕ, ◌-◌, Bool, true, false, not, ◌&&◌, ◌||◌, Option, none, some, leb, if◌then◌else◌,
}
use zero_force_controller.Common.Int.{ℤ, pos, ◌-ℤ◌, eqb_ℤ, i32_min, i32_max}
use zero_force_controller.Double.{Double, nought, one, max_double}

-- one value for each axis
pub record Axes (D : Type 0) : Type 0 where
  pub x : D
  pub y : D
  pub z : D

pub record SiCalibration (D : Type 0) : Type 0 where
  pub m_per_count : D
  pub velocity_from_encoder : Bool
  pub soft_bounds_enabled : Bool
  pub velocity_scale : D
  pub force_scale : Axes D
  pub force_zero : Axes D
  pub lower : D
  pub upper : D
  pub reference_counts : ℤ
  pub reference_valid : Bool

pub record EncoderSession (D : Type 0) : Type 0 where
  pub have_read : Bool
  pub reference_valid : Bool
  pub previous_stationary : Bool
  pub suspended : Bool
  pub reference : ℤ
  pub previous : ℤ
  pub last_ns : ℕ
  pub velocity : D

module _ {D : Type 0} ⦃d : Double D⦄ where
  open d use {le, lt, eq, add, sub, mul, div, fabs, is_finite, round, of_int, to_int, lit, nan}

  abbrev nans : Axes D
  nans = record { x = nan; y = nan; z = nan }

  -- `SiCalibration{}`
  abbrev pub no_calibration : SiCalibration D
  no_calibration = record {
    m_per_count = nan;
    velocity_from_encoder = true;
    soft_bounds_enabled = false;
    velocity_scale = nan;
    force_scale = nans;
    force_zero = record { x = nought; y = nought; z = nought };
    lower = nan;
    upper = nan;
    reference_counts = pos 0;
    reference_valid = false;
  }

  unfoldable pub set_reference : SiCalibration D → ℤ → Bool × SiCalibration D
  set_reference c counts =
      if c.reference_valid
      then (eqb_ℤ c.reference_counts counts, c)
      else (true, record c { reference_counts = counts; reference_valid = true })

  unfoldable pub clear_reference : SiCalibration D → SiCalibration D
  clear_reference c = record c { reference_valid = false }

  unfoldable pub position : SiCalibration D → ℤ → D
  position c counts =
      if c.reference_valid
      then mul c.m_per_count (sub (of_int counts) (of_int c.reference_counts))
      else nan

  unfoldable pub velocity : SiCalibration D → ℤ → D
  velocity c raw = mul c.velocity_scale (of_int raw)

  -- `force`, with the scale and zero of the axis
  unfoldable pub force : D → D → ℤ → D
  force scale zero raw = mul scale (sub (of_int raw) zero)

  unfoldable pub in_bounds : SiCalibration D → D → Bool
  in_bounds c q = is_finite q && (not c.soft_bounds_enabled || (le c.lower q && le q c.upper))

  abbrev outside_i32 : D → Bool
  outside_i32 x = lt x (of_int i32_min) || lt (of_int i32_max) x

  unfoldable pub to_counts : SiCalibration D → D → Option ℤ
  to_counts c q =
      if not c.reference_valid
        || not (in_bounds c q)
        || not (is_finite c.m_per_count)
        || eq c.m_per_count nought
      then none
      else (let raw = add (of_int c.reference_counts) (div q c.m_per_count) in
          if not (is_finite raw) || outside_i32 raw
          then none
          else (let rounded = round raw in
              if outside_i32 rounded
              then none
              else (let counts = to_int rounded in
                  if not (in_bounds c (position c counts)) then none else some counts)))

  -- `EncoderSession{}`
  abbrev pub no_session : EncoderSession D
  no_session = record {
    have_read = false;
    reference_valid = false;
    previous_stationary = false;
    suspended = false;
    reference = pos 0;
    previous = pos 0;
    last_ns = 0;
    velocity = nan;
  }

  unfoldable pub suspend : EncoderSession D → EncoderSession D
  suspend s = record s { suspended = true }

  -- the movement that is allowed since the last read
  unfoldable pub allowed : EncoderSession D → ℕ → ℤ → D
  allowed s elapsed bound =
      if s.suspended
      then of_int bound
      else mul (of_int bound) (max_double one (div (of_int (pos elapsed)) (lit 1_000_000 0)))

  -- the end of `observe`, after its tests
  abbrev accept : EncoderSession D → ℤ → ℕ → Bool → Bool × EncoderSession D
  accept s counts now stationary = (
    true,
    record s {
      previous = counts;
      last_ns = now;
      have_read = true;
      previous_stationary = stationary;
      suspended = false;
    },
  )

  -- A reference is found where two reads in a row show a drive at rest in one place.
  abbrev find_reference : EncoderSession D → ℤ → Bool → EncoderSession D
  find_reference s delta stationary =
      if not s.reference_valid && stationary && s.previous_stationary && eqb_ℤ delta (pos 0)
      then record s { reference = s.previous; reference_valid = true }
      else s

  unfoldable pub observe : EncoderSession D → ℤ → ℕ → Bool → D → ℤ → Bool × EncoderSession D
  observe s counts now stationary scale bound =
      if not s.have_read
      then accept s counts now stationary
      else if leb now s.last_ns
      then (false, s)
      else (let elapsed = now - s.last_ns in
          let delta = counts -ℤ s.previous in
          if lt (allowed s elapsed bound) (fabs (of_int delta))
          then (false, s)
          else (let v = div (mul scale (of_int delta)) (mul (of_int (pos elapsed)) (lit 1 9)) in
              let moved = record s { velocity = v } in
              if not (is_finite v)
              then (false, moved)
              else accept (find_reference moved delta stationary) counts now stationary))
