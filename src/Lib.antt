-- ===== src/Lib.antt =====
-- Verification of the zero-force controller: a carriage on an EtherCAT drive that a load cell
-- pushes, with a compliance law at 1 kHz, under ros2_control.
--
-- The parts and the files that model them, with the paths from the root of the repository:
--   Control       packages/zfc_interfaces/include/zfc_interfaces/control_types.hpp: the inputs, the
--                 published snapshot, the motion bounds, `period_valid` (split in its count and its
--                 test) and `fail`.
--   ZeroForce     packages/zfc_zero_force_controller/include/zfc_zero_force_controller/
--                 zero_force_logic.hpp: `ZeroForceLogic`. `update` returns the new object; what the
--                 method returns is its `state`. Each branch of the method is a function.
--   Sequencer     packages/zfc_calibration_controller/include/zfc_calibration_controller/
--                 calibration_sequencer.hpp: the trajectory that shuttles the carriage; and
--                 Sequencer/Logic, calibration_sequencer_logic.hpp beside it: `CalibrationSequencer-
--                 Logic`, with its checks and its settling.
--   Capture       packages/zfc_interfaces/include/zfc_interfaces/capture.hpp: the ring between the
--                 control thread and the publisher. A method publishes its effect by one store, so a
--                 method is one step and an interleaving is a list of calls.
--   Output        packages/zfc_interfaces/include/zfc_interfaces/command_output.hpp.
--   Telemetry     packages/zfc_interfaces/include/zfc_interfaces/telemetry_publisher.hpp: the publisher
--                 over Capture. The calls of the controller and the accesses of the timer's drain are
--                 events, so a list of events is an interleaving; Message has what is published.
--   Controller    packages/zfc_zero_force_controller/src/zero_force_controller.cpp and packages/
--                 zfc_calibration_controller/src/calibration_sequencer_controller.cpp: the same code
--                 over two logics. Interface says what it asks of a logic, Logics fills it with
--                 ZeroForce and with Sequencer, Calibration names the second instance, and Session
--                 runs a controller together with its publisher. Params and Setup have the
--                 parameters, `on_init` and the guard of the parameters.
--   Ethercat      packages/zfc_ethercat_core: Image is the process image (the EC_READ and EC_WRITE
--                 macros, as an interface with its laws), Clearpath and Elm the process data of the
--                 drive and of the load-cell terminal, Pdo their tables, Cia402 the drive's state
--                 machine (Ladder has the moves of the drive), Counts the check of a command in
--                 counts, Stop the stop sequence, and System the owner of the bus
--                 (`EthercatSystem`), which keeps a log of what it asks of the bus.
--   Calibration   packages/zfc_ethercat_hardware/include/zfc_ethercat_hardware/si_calibration.hpp:
--                 SI units over counts, the encoder session, and the loading of the parameters.
--   Hardware      packages/zfc_ethercat_hardware/src/ethercat_hardware.cpp: the hardware interface,
--                 a client of System, Stop, Counts, Cia402 and Calibration: Init has `on_init`,
--                 Lifecycle the other callbacks, Switch the claiming, and Read and Write the two
--                 halves of the cycle.
--   Diagnostics   packages/zfc_ethercat_hardware/include/zfc_ethercat_hardware/diagnostics.hpp: the ring
--                 to the printing thread, one shared access at a time. Ring is its invariant, Pushes,
--                 Drains and Runs keep it.
--   Timing        packages/zfc_timing: the trace of the cycles, for a profile level above 0. Fields has
--                 the record, Events the calls of the control thread and the file, and Journal, the
--                 trace without a bound, is what it is held against.
--   Loop          packages/zfc_profiling/src/profile_control_node.cpp: a turn of the loop, which joins
--                 Hardware.Read, a controller and Hardware.Write.
--   Simulation    packages/zfc_simulation: the plugin that pushes the simulated tool.
--   Common, Double, Tests: shared helpers, the floating-point interface, and concrete runs.
-- The control loop calls Hardware.Read, then a controller, then Hardware.Write; the controller's
-- position goes through Output to the command interface, through Calibration into counts, through
-- Counts to Clearpath, and its snapshot goes through Telemetry into Capture and on to the topics.
--
-- `double` is an interface (Double), and the theorems that need arithmetic take the laws of Double/
-- Laws, which hold of IEEE 754 numbers; Double/Fixed is a type that meets them and runs. The IgH
-- master library, the clock and the sleep are arguments: the answers of the library are a record
-- (Igh), and those of one exchange another (Poll). `std::stod` is an argument of the loading.
-- Integers of 32 and 64 bits are native numbers and pairs of them; a counter that may wrap keeps its
-- `% 2 ^ 64`.
--
-- The blocking shutdown runs on fuel for 121 rounds. The stop sequence has at most 120 steps and each
-- round takes one, so the last round only sees that it is done; that the fuel is never used up is
-- part of what is shown of it.
--
-- The reads of the clock in one exchange are one value. Between an update that returns ERROR and the
-- write of the same turn, the controller manager is taken to do nothing.
--
-- Not modelled: the number of interfaces that ROS hands to a controller, the node setup of ROS and
-- its generated parameter library, the text of the diagnostic records, the setup of the benchmark
-- executable, the historical prototype in docs, and the Python tools.
pub mod Common
pub mod Double
pub mod Control
pub mod ZeroForce
pub mod Sequencer
pub mod Ethercat
pub mod Capture
pub mod Output
pub mod Telemetry
pub mod Diagnostics
pub mod Timing
pub mod Controller
pub mod Calibration
pub mod Hardware
pub mod Loop
pub mod Simulation
pub mod Tests
