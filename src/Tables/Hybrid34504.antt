-- ===== src/Tables/Hybrid34504.antt =====
-- sensor_data/hybrid_sensors.py: groups of the hybrid inverters.
use hh_modbus.Base.{[], ◌∷◌, true, some}
use hh_modbus.Inverter.{DataType, PollSpeed}
use hh_modbus.Sensors.{entry, dec, percentage, watt, other}
use hh_modbus.Tables.{GroupTable, group}

abbrev pub hybrid_34504 : GroupTable
hybrid_34504 = record (group 34504) {
  poll_speed = some PollSpeed.slow;
  entities =
      record (entry "solis_modbus_inverter_remote_dispatch_running_status" 34504 []) {
        multiplier = dec 0 0;
      }
      ∷ [];
}

abbrev pub hybrid_44100 : GroupTable
hybrid_44100 = record (group 44100) {
  poll_speed = some PollSpeed.slow;
  entities =
      record (entry "solis_modbus_inverter_dispatch_active" 44100 []) { multiplier = dec 0 0 }
      ∷ record (entry "solis_modbus_inverter_dispatch_failsafe_interval" 44101 []) {
        multiplier = dec 1 0;
        unit = some other;
      }
      ∷ record (entry "solis_modbus_inverter_dispatch_limit_switches" 44102 []) {
        multiplier = dec 0 0;
      }
      ∷ record (entry "solis_modbus_inverter_dispatch_import_limit" 44103 []) {
        multiplier = dec 100 0;
        unit = some watt;
      }
      ∷ record (entry "solis_modbus_inverter_dispatch_export_limit" 44104 []) {
        multiplier = dec 100 0;
        unit = some watt;
      }
      ∷ record (entry "solis_modbus_inverter_dispatch_control_mode" 44105 []) {
        multiplier = dec 0 0;
      }
      ∷ record (entry "solis_modbus_inverter_dispatch_power_target" 44106 (44107 ∷ [])) {
        multiplier = dec 10 0;
        unit = some watt;
      }
      ∷ record (entry "solis_modbus_inverter_dispatch_function_bits" 44108 []) {
        multiplier = dec 0 0;
      }
      ∷ record (entry "solis_modbus_inverter_dispatch_soc_lower_limit" 44109 []) {
        multiplier = dec 1 0;
        unit = some percentage;
      }
      ∷ record (entry "solis_modbus_inverter_dispatch_soc_upper_limit" 44110 []) {
        multiplier = dec 1 0;
        unit = some percentage;
      }
      ∷ record (entry "solis_modbus_inverter_dispatch_battery_reserve_soc" 44111 []) {
        multiplier = dec 1 0;
        unit = some percentage;
      }
      ∷ record (entry "solis_modbus_inverter_dispatch_pv_limit_percentage" 44112 []) {
        multiplier = dec 1 2;
        unit = some percentage;
      }
      ∷ [];
}

abbrev pub hybrid_43070 : GroupTable
hybrid_43070 = record (group 43070) {
  poll_speed = some PollSpeed.slow;
  entities =
      record (entry "solis_modbus_inverter_output_limit_gate" 43070 []) {
        multiplier = dec 0 0;
        hidden = true;
      }
      ∷ [];
}

abbrev pub hybrid_43081 : GroupTable
hybrid_43081 = record (group 43081) {
  poll_speed = some PollSpeed.slow;
  entities =
      record (entry "solis_modbus_inverter_output_power_clamp" 43081 []) {
        multiplier = dec 10 0;
        data_type = some DataType.s16;
        unit = some watt;
        min = dec 0 0;
        max = some (dec 60000 0);
        step = some (dec 10 0);
        editable = true;
      }
      ∷ [];
}

abbrev pub hybrid_44280 : GroupTable
hybrid_44280 = record (group 44280) {
  poll_speed = some PollSpeed.slow;
  entities =
      record (entry "solis_modbus_inverter_remote_active_power_control_command" 44280 []) {
        multiplier = dec 1 0;
        hidden = true;
      }
      ∷ [];
}
