-- ===== src/Ethercat/Clearpath.antt =====
-- packages/zfc_ethercat_core/include/clearpath_pdo.hpp and src/clearpath_pdo.cpp: the drive's
-- process data. Unsigned words are ℕ, signed ones ℤ; an exception is `none`.
pub mod RoundTrip
use zero_force_controller.Common.{ℕ, Bool, not, Option, none, some, bit_and, ◌==◌, if◌then◌else◌}
use zero_force_controller.Common.Int.{ℤ, pos, pos_part, ltb_ℤ}
use zero_force_controller.Ethercat.Image.{s8, u16, s16, u32, s32, Ecrt}

abbrev pub alias : ℕ
alias = 0

abbrev pub position : ℕ
position = 2

abbrev pub vendor_id : ℕ
vendor_id = 0xc96

abbrev pub product_code : ℕ
product_code = 1

pub record TxPdos : Type 0 where
  pub statusword : ℕ
  pub mode_display : ℤ
  pub actual_position : ℤ
  pub actual_velocity : ℤ
  pub actual_torque : ℤ
  pub digital_input : ℕ
  pub following_error : ℤ
  pub error_code : ℕ

-- `TxPDOs{}`
abbrev pub no_feedback : TxPdos
no_feedback = record {
  statusword = 0;
  mode_display = pos 0;
  actual_position = pos 0;
  actual_velocity = pos 0;
  actual_torque = pos 0;
  digital_input = 0;
  following_error = pos 0;
  error_code = 0;
}

unfoldable pub negative_limit_reached : TxPdos → Bool
negative_limit_reached m = not (bit_and m.digital_input 1 == 0)

unfoldable pub positive_limit_reached : TxPdos → Bool
positive_limit_reached m = not (bit_and m.digital_input 2 == 0)

pub record Command : Type 0 where
  pub controlword : ℕ
  pub mode_op : ℤ
  pub target_position : ℤ
  pub target_velocity : ℤ
  pub target_torque : ℤ

-- `Command{}`
abbrev pub no_command : Command
no_command = record {
  controlword = 0;
  mode_op = pos 0;
  target_position = pos 0;
  target_velocity = pos 0;
  target_torque = pos 0;
}

pub record RxOffsets : Type 0 where
  pub controlword : ℕ
  pub mode_op : ℕ
  pub target_position : ℕ
  pub target_velocity : ℕ
  pub target_torque : ℕ

pub record TxOffsets : Type 0 where
  pub statusword : ℕ
  pub mode_display : ℕ
  pub actual_position : ℕ
  pub actual_velocity : ℕ
  pub actual_torque : ℕ
  pub digital_input : ℕ

pub record PdoOffsets : Type 0 where
  pub rx : RxOffsets
  pub tx : TxOffsets

-- `PdoOffsets{}`. The source marks an entry that is not registered by -1, which no code reads; here
-- it is 0.
abbrev pub no_offsets : PdoOffsets
no_offsets = record {
  rx = record {
    controlword = 0;
    mode_op = 0;
    target_position = 0;
    target_velocity = 0;
    target_torque = 0;
  };
  tx = record {
    statusword = 0;
    mode_display = 0;
    actual_position = 0;
    actual_velocity = 0;
    actual_torque = 0;
    digital_input = 0;
  };
}

infixl 5 ◌>>=◌
abbrev ◌>>=◌ {ℓ κ} : {A : Type ℓ} {B : Type κ} → Option A → (A → Option B) → Option B
none >>= f = none
some a >>= f = f a

-- `CheckOffset`: the offset, unless the registration failed
abbrev check_offset : ℤ → Option ℕ
check_offset offset = if ltb_ℤ offset (pos 0) then none else some (pos_part offset)

-- The argument is `ecrt_slave_config_reg_pdo_entry`, by index and subindex.
unfoldable pub configure_pdo_offsets : (ℕ → ℕ → ℤ) → Option PdoOffsets
configure_pdo_offsets reg = do
  controlword ← check_offset (reg 0x6040 0)
  mode_op ← check_offset (reg 0x6060 0)
  target_position ← check_offset (reg 0x607a 0)
  target_velocity ← check_offset (reg 0x60ff 0)
  target_torque ← check_offset (reg 0x6071 0)
  statusword ← check_offset (reg 0x6041 0)
  mode_display ← check_offset (reg 0x6061 0)
  actual_position ← check_offset (reg 0x6064 0)
  actual_velocity ← check_offset (reg 0x606c 0)
  actual_torque ← check_offset (reg 0x6077 0)
  digital_input ← check_offset (reg 0x60fd 0)
  some (record {
    rx = record {
      controlword = controlword;
      mode_op = mode_op;
      target_position = target_position;
      target_velocity = target_velocity;
      target_torque = target_torque;
    };
    tx = record {
      statusword = statusword;
      mode_display = mode_display;
      actual_position = actual_position;
      actual_velocity = actual_velocity;
      actual_torque = actual_torque;
      digital_input = digital_input;
    };
  })

module _ {Image : Type 0} ⦃e : Ecrt Image⦄ where
  open e use {read, write}

  unfoldable pub read_tx_pdos : Image → PdoOffsets → TxPdos
  read_tx_pdos m offsets =
      let o = offsets.tx in
      record no_feedback {
        statusword = pos_part (read u16 m o.statusword);
        mode_display = read s8 m o.mode_display;
        actual_position = read s32 m o.actual_position;
        actual_velocity = read s32 m o.actual_velocity;
        actual_torque = read s16 m o.actual_torque;
        digital_input = pos_part (read u32 m o.digital_input);
      }

  unfoldable pub write_command : Image → PdoOffsets → Command → Image
  write_command m offsets c =
      let o = offsets.rx in
      let m1 = write u16 m o.controlword (pos c.controlword) in
      let m2 = write s8 m1 o.mode_op c.mode_op in
      let m3 = write s32 m2 o.target_position c.target_position in
      let m4 = write s32 m3 o.target_velocity c.target_velocity in
      write s16 m4 o.target_torque c.target_torque
