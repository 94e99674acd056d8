-- ===== src/Ethercat/Clearpath/RoundTrip.antt =====
-- What the drive finds in the process image after `WriteCommand`.
use zero_force_controller.Common.{◌≡◌, arith}
use zero_force_controller.Common.Int.{pos, pos_part}
use zero_force_controller.Ethercat.Image.{s8, u16, s16, s32, Ecrt, IsMemory, Fits, Apart}
use zero_force_controller.Ethercat.Clearpath.{Command, RxOffsets, PdoOffsets, write_command}

-- The values are in the range of their C++ types.
pub record CommandFits (c : Command) : Type 0 where
  pub controlword : Fits u16 (pos c.controlword)
  pub mode_op : Fits s8 c.mode_op
  pub target_position : Fits s32 c.target_position
  pub target_velocity : Fits s32 c.target_velocity
  pub target_torque : Fits s16 c.target_torque

-- The entries that the drive receives share no byte.
pub record RxApart (o : RxOffsets) : Type 0 where
  pub word_mode : Apart u16 o.controlword s8 o.mode_op
  pub word_pos : Apart u16 o.controlword s32 o.target_position
  pub word_vel : Apart u16 o.controlword s32 o.target_velocity
  pub word_torque : Apart u16 o.controlword s16 o.target_torque
  pub mode_pos : Apart s8 o.mode_op s32 o.target_position
  pub mode_vel : Apart s8 o.mode_op s32 o.target_velocity
  pub mode_torque : Apart s8 o.mode_op s16 o.target_torque
  pub pos_vel : Apart s32 o.target_position s32 o.target_velocity
  pub pos_torque : Apart s32 o.target_position s16 o.target_torque
  pub vel_torque : Apart s32 o.target_velocity s16 o.target_torque

module _ {Image : Type 0} ⦃e : Ecrt Image⦄ where
  open e use {read}

  -- the command that the drive takes from the image: the specification of `WriteCommand`
  abbrev pub received : Image → PdoOffsets → Command
  received m offsets =
      let o = offsets.rx in
      record {
        controlword = pos_part (read u16 m o.controlword);
        mode_op = read s8 m o.mode_op;
        target_position = read s32 m o.target_position;
        target_velocity = read s32 m o.target_velocity;
        target_torque = read s16 m o.target_torque;
      }

  module _ (memory : IsMemory Image) where
    open memory use {read-write_self, read-write_apart}
    open e use {write}

    -- After `WriteCommand` the drive receives exactly the command, if its values are in the range
    -- of their types and the registered entries share no byte.
    pub received-write_command :
        (m : Image) (offsets : PdoOffsets) (c : Command)
        → CommandFits c
        → RxApart offsets.rx
        → received (write_command m offsets c) offsets ≡ c
    unfolding write_command
    received-write_command m offsets c f a =
        let o = offsets.rx in
        let m1 = write u16 m o.controlword (pos c.controlword) in
        let m2 = write s8 m1 o.mode_op c.mode_op in
        let m3 = write s32 m2 o.target_position c.target_position in
        let m4 = write s32 m3 o.target_velocity c.target_velocity in
        ground (
          arith,
          read-write_self u16 m o.controlword (pos c.controlword) f.controlword,
          read-write_self s8 m1 o.mode_op c.mode_op f.mode_op,
          read-write_self s32 m2 o.target_position c.target_position f.target_position,
          read-write_self s32 m3 o.target_velocity c.target_velocity f.target_velocity,
          read-write_self s16 m4 o.target_torque c.target_torque f.target_torque,
          read-write_apart s8 u16 m1 o.mode_op o.controlword c.mode_op (omega arith),
          read-write_apart s32 u16 m2 o.target_position o.controlword c.target_position
              (omega arith),
          read-write_apart s32 u16 m3 o.target_velocity o.controlword c.target_velocity
              (omega arith),
          read-write_apart s16 u16 m4 o.target_torque o.controlword c.target_torque (omega arith),
          read-write_apart s32 s8 m2 o.target_position o.mode_op c.target_position (omega arith),
          read-write_apart s32 s8 m3 o.target_velocity o.mode_op c.target_velocity (omega arith),
          read-write_apart s16 s8 m4 o.target_torque o.mode_op c.target_torque (omega arith),
          read-write_apart s32 s32 m3 o.target_velocity o.target_position c.target_velocity
              (omega arith),
          read-write_apart s16 s32 m4 o.target_torque o.target_position c.target_torque
              (omega arith),
          read-write_apart s16 s32 m4 o.target_torque o.target_velocity c.target_torque
              (omega arith),
        )
