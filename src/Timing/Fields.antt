-- ===== src/Timing/Fields.antt =====
-- packages/zfc_timing/include/timing_fields.inc: the fields of a trace record, and the array of
-- `int64_t` that has one entry for each.
use zero_force_controller.Common.{ℕ, ◌==◌, if◌then◌else◌}
use zero_force_controller.Common.Int.{ℤ, pos}

pub data Field : Type 0 where
  schema run_id level diagnostic_mode cycle phase controller_active deadline_mono_ns : Field
  deadline_system_ns cycle_mono_ns execution_end_mono_ns cycle_system_ns write_exit_system_ns :
      Field
  actual_period_ns ros_period_ns ready fault wc wc_state statusword mode actual_counts : Field
  target_counts command_change reference_sync cpu trace_drops diagnostic_drops cycle_entry : Field
  cm_read_entry hardware_read_entry core_read_entry core_read_exit hardware_read_exit : Field
  cm_read_exit cm_update_entry controller_entry calculation_entry calculation_exit : Field
  controller_exit cm_update_exit cm_write_entry hardware_write_entry core_write_entry : Field
  core_write_exit hardware_write_exit cm_write_exit sleep_entry sleep_exit commit_entry : Field
  commit_exit application_time_ns receive_api_ns domain_process_ns elm_decode_ns : Field
  motor_decode_ns state_poll_ns readiness_ns encode_ns reference_sync_ns slave_sync_ns : Field
  domain_queue_ns send_api_ns diagnostic_construct_ns diagnostic_push_ns : Field
  clock_mapping_window_ns : Field

-- the place of a field in the array
unfoldable pub place : Field → ℕ
place schema = 0
place run_id = 1
place level = 2
place diagnostic_mode = 3
place cycle = 4
place phase = 5
place controller_active = 6
place deadline_mono_ns = 7
place deadline_system_ns = 8
place cycle_mono_ns = 9
place execution_end_mono_ns = 10
place cycle_system_ns = 11
place write_exit_system_ns = 12
place actual_period_ns = 13
place ros_period_ns = 14
place ready = 15
place fault = 16
place wc = 17
place wc_state = 18
place statusword = 19
place mode = 20
place actual_counts = 21
place target_counts = 22
place command_change = 23
place reference_sync = 24
place cpu = 25
place trace_drops = 26
place diagnostic_drops = 27
place cycle_entry = 28
place cm_read_entry = 29
place hardware_read_entry = 30
place core_read_entry = 31
place core_read_exit = 32
place hardware_read_exit = 33
place cm_read_exit = 34
place cm_update_entry = 35
place controller_entry = 36
place calculation_entry = 37
place calculation_exit = 38
place controller_exit = 39
place cm_update_exit = 40
place cm_write_entry = 41
place hardware_write_entry = 42
place core_write_entry = 43
place core_write_exit = 44
place hardware_write_exit = 45
place cm_write_exit = 46
place sleep_entry = 47
place sleep_exit = 48
place commit_entry = 49
place commit_exit = 50
place application_time_ns = 51
place receive_api_ns = 52
place domain_process_ns = 53
place elm_decode_ns = 54
place motor_decode_ns = 55
place state_poll_ns = 56
place readiness_ns = 57
place encode_ns = 58
place reference_sync_ns = 59
place slave_sync_ns = 60
place domain_queue_ns = 61
place send_api_ns = 62
place diagnostic_construct_ns = 63
place diagnostic_push_ns = 64
place clock_mapping_window_ns = 65

abbrev pub field_count : ℕ
field_count = 66

abbrev pub Record : Type 0
Record = Field → ℤ

abbrev pub blank : Record
blank f = pos 0

-- `r[f] = v`
abbrev pub put : Record → Field → ℤ → Record
put r f v g = if place g == place f then v else r g
