-- ===== src/Ethercat/Pdo/Layout.antt =====
-- Where the registered entries lie, if the process data of a device start at a byte.
use zero_force_controller.Common.{
  ℕ, ◌+◌, ◌*◌, ◌/◌, ◌%◌, ◌^◌, ◌<◌, ◌≡◌, Bool, Option, some, ◌==◌, arith, if◌then◌else◌,
}
use mathlib.Core.Option
use zero_force_controller.Ethercat.Image.{s32, Bytes, bytes_ecrt, read_bytes}
use zero_force_controller.Ethercat.Elm.{
  Channel, Feedback, ChannelOffsets, register_pdo_entries, read_channel, read_feedback,
}
use zero_force_controller.Ethercat.Pdo.{
  input, find, assigned, elm_entries, elm_pdos, elm_syncs, register_channel, register_channels,
}

-- the inputs of the terminal, packed from byte `base` on
abbrev pub elm_layout : ℕ → ℕ → ℕ → Option (ℕ × ℕ)
elm_layout base = find (8 * base) (assigned input elm_entries elm_pdos elm_syncs)

-- a channel of eight bytes: the count, the flags and the counter in the next byte, a gap of two, the
-- sample
abbrev pub channel_at : ℕ → ChannelOffsets
channel_at b = record {
  number_of_samples = (b, 0);
  error = (b + 1, 0);
  underrange = (b + 1, 1);
  overrange = (b + 1, 2);
  diag = (b + 1, 4);
  txpdo_state = (b + 1, 5);
  cycle_counter = (b + 1, 6);
  sample = b + 4;
}

register_lem :
    (base : ℕ)
    → register_pdo_entries (register_channels (elm_layout base))
      ≡ some (record { x = channel_at base; y = channel_at (base + 8); z = channel_at (base + 16) })
unfolding register_pdo_entries register_channels register_channel
register_lem base = ground arith

abbrev bit : Bool → ℕ
bit b = if b then 1 else 0

-- The bytes that the terminal sends for a channel, whatever its gaps hold.
pub record Sends (m : Bytes) (b : ℕ) (c : Channel) : Type 0 where
  pub samples : m b ≡ c.number_of_samples
  pub gap : ℕ
  pub gap_bit : gap < 2
  pub counter : c.input_cycle_counter < 4
  pub flags :
      m (b + 1)
      ≡ bit c.error
        + 2 * bit c.underrange
        + 4 * bit c.overrange
        + 8 * gap
        + 16 * bit c.diag
        + 32 * bit c.txpdo_state
        + 64 * c.input_cycle_counter
  pub sample : read_bytes s32 m (b + 4) ≡ c.raw_sample

flag_bits :
    (n g k : ℕ) (e u o d t : Bool)
    → g < 2
    → k < 4
    → n ≡ bit e + 2 * bit u + 4 * bit o + 8 * g + 16 * bit d + 32 * bit t + 64 * k
    → ((n / 2 ^ 0 % 2 == 1) ≡ e)
      × ((n / 2 ^ 1 % 2 == 1) ≡ u)
      × ((n / 2 ^ 2 % 2 == 1) ≡ o)
      × ((n / 2 ^ 4 % 2 == 1) ≡ d)
      × ((n / 2 ^ 5 % 2 == 1) ≡ t)
      × (n / 2 ^ 6 % 4 ≡ k)
flag_bits n g k e u o d t p q h = ground arith

read_channel_lem :
    (m : Bytes) (b : ℕ) (c : Channel) → Sends m b c → read_channel m (channel_at b) ≡ c
unfolding read_channel read_bytes
read_channel_lem m b c s =
    let f =
      flag_bits (m (b + 1)) s.gap c.input_cycle_counter c.error c.underrange c.overrange c.diag
        c.txpdo_state s.gap_bit s.counter s.flags in
    λ i. record {
      raw_sample = s.sample i;
      number_of_samples = s.samples i;
      input_cycle_counter = f.5 i;
      error = f.0 i;
      underrange = f.1 i;
      overrange = f.2 i;
      diag = f.3 i;
      txpdo_state = f.4 i;
    }

-- From the tables to the reader: if the master packs the assigned entries from byte `base` on, then
-- the registration is accepted, and the feedback that is read with its offsets is the one that the
-- terminal sends in those bytes.
pub read_feedback-Sends :
    (reg : ℕ → ℕ → Option (ℕ × ℕ)) (base : ℕ) (m : Bytes) (f : Feedback)
    → ((index subindex : ℕ) → reg index subindex ≡ elm_layout base index subindex)
    → Sends m base f.x
    → Sends m (base + 8) f.y
    → Sends m (base + 16) f.z
    → Option.map (read_feedback m) (register_pdo_entries (register_channels reg)) ≡ some f
unfolding read_feedback
read_feedback-Sends reg base m f packed x y z =
    let packed_reg : reg ≡ elm_layout base = λ i index subindex. packed index subindex i in
    rw (packed_reg, register_lem base)
      (λ i. some (record {
        x = read_channel_lem m base f.x x i;
        y = read_channel_lem m (base + 8) f.y y i;
        z = read_channel_lem m (base + 16) f.z z i;
      }))
