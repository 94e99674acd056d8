-- ===== src/Ethercat/Pdo/Drive.antt =====
-- The command of the drive, from the tables of `RemapPDOs` to what the drive receives.
use mathlib.Core.Option
use zero_force_controller.Common.{
  ℕ, ◌+◌, ◌*◌, ◌/◌, ◌%◌, ◌≡◌, Option, none, some, ◌++◌, ◌==◌, ◌&&◌, ◌∙◌, refl, inl, ap, arith,
  if◌then◌else◌,
}
use zero_force_controller.Common.Int.{ℤ, pos, negsuc, pos_part}
use zero_force_controller.Ethercat.Image.{Kind, s8, u16, s16, u32, s32, size, Ecrt, IsMemory}
use zero_force_controller.Ethercat.Clearpath.{
  Command, PdoOffsets, TxPdos, no_feedback, configure_pdo_offsets, read_tx_pdos, write_command,
}
use zero_force_controller.Ethercat.Clearpath.RoundTrip.{
  CommandFits, RxApart, received, received-write_command,
}
use zero_force_controller.Ethercat.Pdo.{
  Direction, output, input, find, drive_syncs, assigned, drive_rx_entries, drive_tx_entries,
  drive_pdos,
}

-- A registration without a place for the bit: the byte, or an error code.
infixl 5 ◌>>=◌
abbrev pub ◌>>=◌ {ℓ κ} : {A : Type ℓ} {B : Type κ} → Option A → (A → Option B) → Option B
none >>= f = none
some a >>= f = f a

abbrev pub byte_or_error : Option (ℕ × ℕ) → ℤ
byte_or_error none = negsuc 0
byte_or_error (some (at, bits)) = if at % 8 == 0 then pos (at / 8) else negsuc 0

-- the outputs and the inputs of the drive, packed from byte `out` and from byte `back` on
abbrev pub drive_layout : ℕ → ℕ → ℕ → ℕ → ℤ
drive_layout out back index subindex =
    let entries = drive_rx_entries ++ drive_tx_entries in
    byte_or_error
      (elim (find (8 * out) (assigned output entries drive_pdos drive_syncs) index subindex) [
        | none ↦ find (8 * back) (assigned input entries drive_pdos drive_syncs) index subindex
        | some place ↦ some place
      ])

-- the first byte of an object of `width` bits that the drive exchanges whole from byte `start` on
abbrev place : Direction → ℕ → ℕ → ℕ → Option ℕ
place way start index width =
    let entries = drive_rx_entries ++ drive_tx_entries in
    elim (find (8 * start) (assigned way entries drive_pdos drive_syncs) index 0) [
      | none ↦ none
      | some (at, bits) ↦ if at % 8 == 0 && bits == width then some (at / 8) else none
    ]

module _ {Image : Type 0} ⦃e : Ecrt Image⦄ where
  -- an object as the drive exchanges it, in the type that CiA 402 gives it
  abbrev object : Direction → ℕ → Image → ℕ → Kind → Option ℤ
  object way start m index kind = Option.map (e.read kind m) (place way start index (8 * size kind))

  -- What the drive obeys, by its own table, which starts at byte `out`: Controlword, Modes of
  -- operation, Target position, Target velocity and Target torque.
  abbrev pub obeyed : ℕ → Image → Option Command
  obeyed out m = do
    controlword ← object output out m 0x6040 u16
    mode_op ← object output out m 0x6060 s8
    target_position ← object output out m 0x607a s32
    target_velocity ← object output out m 0x60ff s32
    target_torque ← object output out m 0x6071 s16
    some (record {
      controlword = pos_part controlword;
      mode_op = mode_op;
      target_position = target_position;
      target_velocity = target_velocity;
      target_torque = target_torque;
    })

  -- What the drive reports, by its own table, which starts at byte `back`: Statusword, Modes of
  -- operation display, the actual position, velocity and torque, and Digital inputs. No other object
  -- is exchanged.
  abbrev pub reported : ℕ → Image → Option TxPdos
  reported back m = do
    statusword ← object input back m 0x6041 u16
    mode_display ← object input back m 0x6061 s8
    actual_position ← object input back m 0x6064 s32
    actual_velocity ← object input back m 0x606c s32
    actual_torque ← object input back m 0x6077 s16
    digital_input ← object input back m 0x60fd u32
    some (record no_feedback {
      statusword = pos_part statusword;
      mode_display = mode_display;
      actual_position = actual_position;
      actual_velocity = actual_velocity;
      actual_torque = actual_torque;
      digital_input = pos_part digital_input;
    })

abbrev drive_offsets : ℕ → ℕ → PdoOffsets
drive_offsets out back = record {
  rx = record {
    controlword = out;
    mode_op = out + 2;
    target_position = out + 3;
    target_velocity = out + 7;
    target_torque = out + 11;
  };
  tx = record {
    statusword = back;
    mode_display = back + 2;
    actual_position = back + 3;
    actual_velocity = back + 7;
    actual_torque = back + 11;
    digital_input = back + 13;
  };
}

configure_lem :
    (out back : ℕ) → configure_pdo_offsets (drive_layout out back) ≡ some (drive_offsets out back)
unfolding configure_pdo_offsets
configure_lem out back = ground arith

drive-RxApart : (out back : ℕ) → RxApart (drive_offsets out back).rx
drive-RxApart out back = record {
  word_mode = inl (omega arith);
  word_pos = inl (omega arith);
  word_vel = inl (omega arith);
  word_torque = inl (omega arith);
  mode_pos = inl (omega arith);
  mode_vel = inl (omega arith);
  mode_torque = inl (omega arith);
  pos_vel = inl (omega arith);
  pos_torque = inl (omega arith);
  vel_torque = inl (omega arith);
}

obeyed_lem :
    {Image : Type 0} ⦃e : Ecrt Image⦄ (out back : ℕ) (m : Image)
    → obeyed out m ≡ some (received m (drive_offsets out back))
obeyed_lem out back m = ground arith

reported_lem :
    {Image : Type 0} ⦃e : Ecrt Image⦄ (out back : ℕ) (m : Image)
    → reported back m ≡ some (read_tx_pdos m (drive_offsets out back))
unfolding read_tx_pdos
reported_lem out back m = ground arith

module _ {Image : Type 0} ⦃e : Ecrt Image⦄ (memory : IsMemory Image) where
  -- From the registration to the drive's own tables: if the master packs the outputs from byte `out`
  -- and the inputs from byte `back` on, and an image reads back what is written to it, then the
  -- registration is accepted, the drive obeys exactly the command that is written, object by object
  -- of its table, if the fields fit their widths, and the feedback that is read is what the drive
  -- reports, object by object of its table.
  pub obeyed-configure_pdo_offsets :
      (reg : ℕ → ℕ → ℤ) (out back : ℕ) (m : Image) (c : Command)
      → ((index subindex : ℕ) → reg index subindex ≡ drive_layout out back index subindex)
      → CommandFits c
      → ((configure_pdo_offsets reg >>= λ o. obeyed out (write_command m o c)) ≡ some c)
        × ((configure_pdo_offsets reg >>= λ o. some (read_tx_pdos m o)) ≡ reported back m)
  obeyed-configure_pdo_offsets reg out back m c packed f =
      let packed_reg : reg ≡ drive_layout out back = λ i index subindex. packed index subindex i in
      let o = drive_offsets out back in
      let kept = received-write_command memory m o c f (drive-RxApart out back) in
      (
        rw (packed_reg, configure_lem out back)
            (obeyed_lem out back (write_command m o c) ∙ ap some kept),
        rw (packed_reg, configure_lem out back, reported_lem out back m) refl,
      )
