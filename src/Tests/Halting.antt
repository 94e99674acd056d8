-- ===== src/Tests/Halting.antt =====
-- A faulted system, two cycles before the end of its stop sequence.
use zero_force_controller.Common.{ℕ, ◌≡◌, refl, true, false, List, [], ◌∷◌, arith}
use zero_force_controller.Common.Int.{pos}
use zero_force_controller.Double.Fixed.{Fixed, fixed_double}
use zero_force_controller.Ethercat.Image.{Bytes, bytes_ecrt, read_bytes}
use zero_force_controller.Ethercat.Cia402.{is_operation_enabled_csp}
use zero_force_controller.Ethercat.System.{is_ready}
use zero_force_controller.Ethercat.Clearpath.{no_command, read_tx_pdos}
use zero_force_controller.Ethercat.System.Exchange
use zero_force_controller.Hardware.{Hardware, copy_state, hold_measured, fault}
use zero_force_controller.Hardware.Read.{
  read, exchange, observe_encoder, watch_startup, watch_operation, watch_timing, bus_fault,
}
use zero_force_controller.Hardware.Write.{write, intend, stop_step, send}
use zero_force_controller.Hardware.Stopping.{Tick, cycles, AllTaken, stops_in_time}
use zero_force_controller.Ethercat.System.Exchange.{guarded}
use zero_force_controller.Tests.Cycle.{faulted}
use zero_force_controller.Tests.Session.{poll}

abbrev stopping : Hardware Bytes Fixed
stopping = record faulted { stop_sequence = record { cycle = 119; command = no_command } }

abbrev tick : ℕ → Tick Bytes
tick now = record { now = now; period = pos 1_000_000; poll = poll now; later = now }

abbrev ticks : List (Tick Bytes)
ticks = tick 2_000_000 ∷ tick 3_000_000 ∷ []

all_taken : AllTaken ticks stopping
unfolding AllTaken read exchange observe_encoder watch_startup watch_operation watch_timing
    Exchange.read copy_state fault write intend stop_step send hold_measured is_ready
    is_operation_enabled_csp read_tx_pdos read_bytes bus_fault Exchange.write
all_taken = (refl, (refl, tt))

stops_in_time_example :
    ((cycles ticks stopping).active ≡ false)
    × ((cycles ticks stopping).stop_complete ≡ true)
    × ((cycles ticks stopping).fault ≡ true)
stops_in_time_example = stops_in_time ticks stopping refl refl refl all_taken (omega arith) refl
