-- ===== src/Tests/Session.antt =====
-- A bus that is configured, activated, used and shut down, on a process image of bytes.
use zero_force_controller.Common.{
  ℕ, ◌*◌, ◌≡◌, Bool, true, false, Option, none, some, [], arith, ◌==◌, if◌then◌else◌,
}
use zero_force_controller.Common.Int.{ℤ, pos, negsuc}
use zero_force_controller.Ethercat.Image.{Bytes, bytes_ecrt}
use zero_force_controller.Ethercat.Clearpath
use zero_force_controller.Ethercat.Clearpath.{Command, PdoOffsets, no_command}
use zero_force_controller.Ethercat.Elm
use zero_force_controller.Ethercat.Elm.{ElmOffsets}
use zero_force_controller.Ethercat.System.{
  System, Igh, Poll, SlaveState, wc_complete, no_snapshot, configured,
}
use zero_force_controller.Ethercat.System.Configure.{configure, activate, ek1100_product}
use zero_force_controller.Ethercat.System.Exchange.{shut_down}
use zero_force_controller.Ethercat.System.Ownership.{
  IsOwner, IsConfigured, configure_lem, activate_lem,
}
use zero_force_controller.Ethercat.System.Shutdown.{AsksOnlyEnabled, IsConfirmed, shut_down_lem}

abbrev pub fresh : System Bytes
fresh = record {
  master = false;
  domain = false;
  ek1100_config = false;
  elm3604_config = false;
  clearpath_config = false;
  domain_data = none;
  elm_offsets = Elm.no_offsets;
  clearpath_offsets = Clearpath.no_offsets;
  snapshot = no_snapshot;
  sync_ref_counter = 0;
  log = [];
}

abbrev pub slaves : ℕ → Option (ℕ × ℕ)
slaves p =
    if p == 0
    then some (2, ek1100_product)
    else if p == 1
    then some (Elm.vendor_id, Elm.product_code)
    else if p == 2
    then some (Clearpath.vendor_id, Clearpath.product_code)
    else none

-- the offset of an entry of the drive, by its index
abbrev pub drive_entry : ℕ → ℕ → ℤ
drive_entry index sub =
    if index == 0x6040
    then pos 0
    else if index == 0x6060
    then pos 2
    else if index == 0x607a
    then pos 3
    else if index == 0x60ff
    then pos 7
    else if index == 0x6071
    then pos 11
    else if index == 0x6041
    then pos 13
    else if index == 0x6061
    then pos 15
    else if index == 0x6064
    then pos 16
    else if index == 0x606c
    then pos 20
    else if index == 0x6077
    then pos 24
    else if index == 0x60fd
    then pos 26
    else negsuc 0

abbrev pub bus : Igh Bytes
bus = record {
  request_master = true;
  slave = slaves;
  create_domain = true;
  slave_config = λ a p v c. true;
  sdo = λ i s v. pos 0;
  config_pdos = λ p. pos 0;
  reg_pdo_entry_list = some Elm.no_offsets;
  reg_pdo_entry = drive_entry;
  activate_master = pos 0;
  domain_memory = some (λ a. 0);
}

fresh-IsOwner : IsOwner fresh
fresh-IsOwner = ground arith

configure_lem_example :
    let (ok, t) = configure bus fresh in
    IsOwner t
    × (ok ≡ true → IsConfigured bus t)
    × (ok ≡ false → false ≡ false → (t.master ≡ false) × (configured t ≡ false))
    × (false ≡ true → (ok ≡ false) × (t ≡ fresh))
configure_lem_example = configure_lem bus fresh fresh-IsOwner

abbrev configured_system : System Bytes
configured_system = (configure bus fresh).1

activate_lem_example :
    let (ok, t) = activate bus configured_system in
    IsOwner t
    × (configured t ≡ ok)
    × (ok ≡ false → configured_system.domain ≡ true → t.master ≡ false)
activate_lem_example = activate_lem bus configured_system configure_lem_example.0

-- the offsets of the drive above, on an image of zeros
abbrev pub running : System Bytes
running = record fresh {
  master = true;
  domain = true;
  domain_data = some (λ a. 0);
  clearpath_offsets = record {
    rx = record {
      controlword = 0;
      mode_op = 2;
      target_position = 3;
      target_velocity = 7;
      target_torque = 11;
    };
    tx = record {
      statusword = 13;
      mode_display = 15;
      actual_position = 16;
      actual_velocity = 20;
      actual_torque = 24;
      digital_input = 26;
    };
  };
}

abbrev pub up : SlaveState
up = record { online = true; operational = true }

abbrev pub poll : ℕ → Poll Bytes
poll now = record {
  now = now;
  received = λ a. 0;
  master = record { slaves_responding = 3; link_up = true };
  domain = record { working_counter = 3; wc_state = wc_complete };
  ek1100 = up;
  elm3604 = up;
  clearpath = up;
}

abbrev pub polls : ℕ → Option (Poll Bytes)
polls i = some (poll (1_000_000 * i))

shut_down_lem_example :
    (r : Bool × System Bytes) × (shut_down polls running ≡ some r)
    × AsksOnlyEnabled r.1.log
    × (r.0 ≡ true → configured running ≡ true → IsConfirmed r.1)
shut_down_lem_example = shut_down_lem polls running tt
