-- ===== src/Ethercat/Elm.antt =====
-- packages/zfc_ethercat_core/include/elm3604_pdo.hpp and src/elm3604_pdo.cpp: the load-cell
-- terminal. Samples are raw counts. The arguments stand for the calls of the IgH master library.
use zero_force_controller.Common.{
  ℕ, ◌/◌, ◌%◌, ◌^◌, Bool, true, false, not, ◌&&◌, ◌||◌, Option, none, some, List, [], ◌∷◌, ◌==◌,
  ltb, if◌then◌else◌,
}
use zero_force_controller.Common.Int.{ℤ, pos, pos_part, ltb_ℤ}
use zero_force_controller.Ethercat.Image.{u8, s32, Ecrt}

abbrev pub alias : ℕ
alias = 0

abbrev pub position : ℕ
position = 1

abbrev pub vendor_id : ℕ
vendor_id = 2

abbrev pub product_code : ℕ
product_code = 0x5021_9349

pub record Channel : Type 0 where
  pub raw_sample : ℤ
  pub number_of_samples : ℕ
  pub input_cycle_counter : ℕ
  pub error : Bool
  pub underrange : Bool
  pub overrange : Bool
  pub diag : Bool
  pub txpdo_state : Bool

-- `Channel{}`
abbrev pub no_channel : Channel
no_channel = record {
  raw_sample = pos 0;
  number_of_samples = 0;
  input_cycle_counter = 0;
  error = false;
  underrange = false;
  overrange = false;
  diag = false;
  txpdo_state = false;
}

pub record Feedback : Type 0 where
  pub x : Channel
  pub y : Channel
  pub z : Channel

abbrev pub no_feedback : Feedback
no_feedback = record { x = no_channel; y = no_channel; z = no_channel }

-- a byte offset and a bit
abbrev pub BitOffset : Type 0
BitOffset = ℕ × ℕ

pub record ChannelOffsets : Type 0 where
  pub number_of_samples : BitOffset
  pub error : BitOffset
  pub underrange : BitOffset
  pub overrange : BitOffset
  pub diag : BitOffset
  pub txpdo_state : BitOffset
  pub cycle_counter : BitOffset
  pub sample : ℕ

pub record ElmOffsets : Type 0 where
  pub x : ChannelOffsets
  pub y : ChannelOffsets
  pub z : ChannelOffsets

abbrev no_channel_offsets : ChannelOffsets
no_channel_offsets = record {
  number_of_samples = (0, 0);
  error = (0, 0);
  underrange = (0, 0);
  overrange = (0, 0);
  diag = (0, 0);
  txpdo_state = (0, 0);
  cycle_counter = (0, 0);
  sample = 0;
}

-- `PdoOffsets{}`
abbrev pub no_offsets : ElmOffsets
no_offsets = record { x = no_channel_offsets; y = no_channel_offsets; z = no_channel_offsets }

module _ {Image : Type 0} ⦃e : Ecrt Image⦄ where
  open e use {read, read_bit}

  -- The cycle counter is the two bits from its offset on.
  unfoldable pub read_channel : Image → ChannelOffsets → Channel
  read_channel m o =
      let packed_counter = pos_part (read u8 m o.cycle_counter.0) in
      record {
        number_of_samples = pos_part (read u8 m o.number_of_samples.0);
        error = read_bit m o.error.0 o.error.1;
        underrange = read_bit m o.underrange.0 o.underrange.1;
        overrange = read_bit m o.overrange.0 o.overrange.1;
        diag = read_bit m o.diag.0 o.diag.1;
        txpdo_state = read_bit m o.txpdo_state.0 o.txpdo_state.1;
        input_cycle_counter = packed_counter / 2 ^ o.cycle_counter.1 % 4;
        raw_sample = read s32 m o.sample;
      }

  unfoldable pub read_feedback : Image → ElmOffsets → Feedback
  unfolding read_channel
  read_feedback m o = record {
    x = read_channel m o.x;
    y = read_channel m o.y;
    z = read_channel m o.z;
  }

-- The settings that are queued for one channel: subindex and value.
abbrev startup_settings : List (ℕ × ℕ)
startup_settings =
    (0x01, 108) ∷ (0x03, 0) ∷ (0x07, 0) ∷ (0x16, 0) ∷ (0x18, 1) ∷ (0x19, 0) ∷ (0x2e, 0) ∷ []

-- The first call that fails ends the chain.
unfoldable pub configure_channel : (ℕ → ℕ → ℕ → ℤ) → ℕ → List (ℕ × ℕ) → Bool
configure_channel sdo index [] = true
configure_channel sdo index ((sub, value) ∷ rest) =
    not (ltb_ℤ (sdo index sub value) (pos 0)) && configure_channel sdo index rest

-- `ConfigureStartupSdos`; the argument is `ecrt_slave_config_sdo8` and `_sdo16`.
unfoldable pub configure_startup_sdos : (ℕ → ℕ → ℕ → ℤ) → Bool
unfolding configure_channel
configure_startup_sdos sdo =
    configure_channel sdo 0x8000 startup_settings
    && configure_channel sdo 0x8010 startup_settings
    && configure_channel sdo 0x8020 startup_settings

-- `RegisterPDOEntries`: the argument is what `ecrt_domain_reg_pdo_entry_list` filled in, if it
-- succeeded. The count of samples must start at a byte.
unfoldable pub register_pdo_entries : Option ElmOffsets → Option ElmOffsets
register_pdo_entries none = none
register_pdo_entries (some o) =
    if not (o.x.number_of_samples.1 == 0)
      || not (o.y.number_of_samples.1 == 0)
      || not (o.z.number_of_samples.1 == 0)
    then none
    else some o

-- `ElmChannelValid` of ethercat_system.cpp
unfoldable pub channel_valid : Channel → Bool
channel_valid c = ltb 0 c.number_of_samples && not c.txpdo_state && not c.error
