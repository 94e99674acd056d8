-- ===== src/Tests/Tables.antt =====
-- The tables of process data, on a process image of bytes.
use mathlib.Core.Option
use zero_force_controller.Common.{
  ℕ, ◌≡◌, refl, true, false, some, List, [], ◌∷◌, ◌==◌, arith, if◌then◌else◌,
}
use zero_force_controller.Common.Int.{pos, negsuc}
use zero_force_controller.Ethercat.Image.{Bytes, bytes_ecrt, read_bytes, Bytes-IsMemory}
use zero_force_controller.Ethercat.Clearpath.{
  Command, no_command, read_tx_pdos, write_command, configure_pdo_offsets,
}
use zero_force_controller.Ethercat.Clearpath.RoundTrip.{CommandFits}
use zero_force_controller.Ethercat.Cia402.{mode_csp, enable_operation}
use zero_force_controller.Ethercat.Elm.{Channel, Feedback, register_pdo_entries, read_feedback}
use zero_force_controller.Ethercat.Pdo.{register_channels}
use zero_force_controller.Ethercat.Pdo.Drive.{
  drive_layout, obeyed, reported, ◌>>=◌, obeyed-configure_pdo_offsets,
}
use zero_force_controller.Ethercat.Pdo.Layout.{Sends, elm_layout, read_feedback-Sends}

abbrev zeros : Bytes
zeros = λ a. 0

abbrev moving : Command
moving = record no_command {
  controlword = enable_operation;
  mode_op = mode_csp;
  target_position = negsuc 1_999;
}

moving_fits : CommandFits moving
moving_fits = ground arith

obeyed-configure_pdo_offsets_example :
    ((configure_pdo_offsets (drive_layout 0 13) >>= λ o. obeyed 0 (write_command zeros o moving))
      ≡ some moving)
    × ((configure_pdo_offsets (drive_layout 0 13) >>= λ o. some (read_tx_pdos zeros o))
        ≡ reported 13 zeros)
obeyed-configure_pdo_offsets_example =
    obeyed-configure_pdo_offsets Bytes-IsMemory (drive_layout 0 13) 0 13 zeros moving
      (λ index subindex. refl) moving_fits

abbrev byte_at : List (ℕ × ℕ) → Bytes
byte_at [] a = 0
byte_at ((k, v) ∷ rest) a = if a == k then v else byte_at rest a

-- one sample of each channel from byte 17 on: 1, a sample out of range with a cycle counter of 3,
-- and -1
abbrev received_bytes : Bytes
received_bytes = byte_at (
    (17, 1)
    ∷ (21, 1)
    ∷ (25, 1)
    ∷ (26, 206)
    ∷ (33, 1)
    ∷ (37, 255)
    ∷ (38, 255)
    ∷ (39, 255)
    ∷ (40, 255)
    ∷ [])

abbrev quiet : Channel
quiet = record {
  raw_sample = pos 0;
  number_of_samples = 1;
  input_cycle_counter = 0;
  error = false;
  underrange = false;
  overrange = false;
  diag = false;
  txpdo_state = false;
}

abbrev sampled : Feedback
sampled = record {
  x = record quiet { raw_sample = pos 1 };
  y = record quiet { underrange = true; overrange = true; input_cycle_counter = 3 };
  z = record quiet { raw_sample = negsuc 0 };
}

x-Sends : Sends received_bytes 17 sampled.x
unfolding read_bytes
x-Sends = record {
  samples = refl;
  gap = 0;
  gap_bit = omega arith;
  counter = omega arith;
  flags = refl;
  sample = refl;
}

y-Sends : Sends received_bytes 25 sampled.y
unfolding read_bytes
y-Sends = record {
  samples = refl;
  gap = 1;
  gap_bit = omega arith;
  counter = omega arith;
  flags = refl;
  sample = refl;
}

z-Sends : Sends received_bytes 33 sampled.z
unfolding read_bytes
z-Sends = record {
  samples = refl;
  gap = 0;
  gap_bit = omega arith;
  counter = omega arith;
  flags = refl;
  sample = refl;
}

read_feedback-Sends_example :
    Option.map
      (read_feedback received_bytes)
      (register_pdo_entries (register_channels (elm_layout 17)))
    ≡ some sampled
read_feedback-Sends_example =
    read_feedback-Sends (elm_layout 17) 17 received_bytes sampled (λ index subindex. refl) x-Sends
      y-Sends z-Sends
