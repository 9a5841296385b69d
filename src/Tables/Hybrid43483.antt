-- ===== src/Tables/Hybrid43483.antt =====
-- sensor_data/hybrid_sensors.py: groups of the hybrid inverters.
use hh_modbus.Base.{[], ◌∷◌, true, false, some}
use hh_modbus.Inverter.{DataType, PollSpeed}
use hh_modbus.Sensors.{entry, dec, percentage, watt, other}
use hh_modbus.Tables.{GroupTable, group}

abbrev pub hybrid_43483 : GroupTable
hybrid_43483 = record (group 43483) {
  entities =
      record (entry "solis_modbus_inverter_hybrid_function_control" 43483 []) {
        multiplier = dec 1 0;
        hidden = true;
      }
      ∷ [];
}

abbrev pub hybrid_43487 : GroupTable
hybrid_43487 = record (group 43487) {
  poll_speed = some PollSpeed.slow;
  entities =
      record (entry "solis_modbus_inverter_peak_baseline_soc" 43487 []) {
        multiplier = dec 1 0;
        unit = some percentage;
        min = dec 7 0;
        max = some (dec 100 0);
        editable = true;
      }
      ∷ record (entry "solis_modbus_inverter_peak_max_usuable_grid_power" 43488 []) {
        multiplier = dec 100 0;
        unit = some watt;
        min = dec 0 0;
        max = some (dec 15000 0);
        editable = true;
      }
      ∷ [];
}

abbrev pub hybrid_43249 : GroupTable
hybrid_43249 = record (group 43249) {
  poll_speed = some PollSpeed.slow;
  entities =
      record (entry "solis_modbus_inverter_special_settings" 43249 []) {
        multiplier = dec 1 0;
        hidden = true;
      }
      ∷ [];
}

abbrev pub hybrid_43291 : GroupTable
hybrid_43291 = record (group 43291) {
  poll_speed = some PollSpeed.slow;
  entities =
      record (entry "solis_modbus_inverter_flexible_export_backflow_power" 43291 []) {
        multiplier = dec 100 0;
        unit = some watt;
        min = dec 0 0;
        max = some (dec 15000 0);
        default = dec 0 0;
        editable = true;
        registry_enabled = false;
      }
      ∷ record (entry "solis_modbus_inverter_flexible_export_enabling_switch" 43292 []) {
        multiplier = dec 1 0;
        hidden = true;
      }
      ∷ [];
}

abbrev pub hybrid_43302 : GroupTable
hybrid_43302 = record (group 43302) {
  poll_speed = some PollSpeed.slow;
  entities =
      record (entry "solis_modbus_inverter_hybrid_auxiliary_control_flags" 43302 []) {
        multiplier = dec 1 0;
        hidden = true;
      }
      ∷ [];
}

abbrev pub hybrid_43110 : GroupTable
hybrid_43110 = record (group 43110) {
  poll_speed = some PollSpeed.slow;
  entities =
      record (entry "solis_modbus_inverter_storage_control_switch_value" 43110 []) {
        multiplier = dec 1 0;
        hidden = true;
      }
      ∷ record (entry "solis_modbus_inverter_backup_supply_value" 43111 []) {
        multiplier = dec 1 0;
        hidden = true;
      }
      ∷ [];
}

abbrev pub hybrid_43117 : GroupTable
hybrid_43117 = record (group 43117) {
  poll_speed = some PollSpeed.slow;
  entities =
      record (entry "solis_modbus_inverter_battery_max_charge_current" 43117 []) {
        multiplier = dec 1 1;
        unit = some other;
        min = dec 0 0;
        step = some (dec 1 1);
        default = dec 20 0;
        editable = true;
      }
      ∷ record (entry "solis_modbus_inverter_battery_max_discharge_current" 43118 []) {
        multiplier = dec 1 1;
        unit = some other;
        min = dec 0 0;
        step = some (dec 1 1);
        default = dec 20 0;
        editable = true;
      }
      ∷ [];
}

abbrev pub hybrid_43282 : GroupTable
hybrid_43282 = record (group 43282) {
  poll_speed = some PollSpeed.slow;
  entities =
      record (entry "solis_modbus_inverter_rc_timeout" 43282 []) {
        multiplier = dec 1 0;
        unit = some other;
        min = dec 1 0;
        max = some (dec 30 0);
        step = some (dec 1 0);
        default = dec 5 0;
        editable = true;
        registry_visible = false;
      }
      ∷ [];
}

abbrev pub hybrid_33200 : GroupTable
hybrid_33200 = record (group 33200) {
  poll_speed = some PollSpeed.slow;
  entities =
      record (entry "solis_modbus_inverter_backup_output_enabled_mirror" 33200 []) {
        multiplier = dec 0 0;
      }
      ∷ record (entry "solis_modbus_inverter_backup_voltage_reference" 33201 []) {
        multiplier = dec 1 1;
        unit = some other;
      }
      ∷ record (entry "solis_modbus_inverter_backup_frequency_reference" 33202 []) {
        multiplier = dec 1 2;
        unit = some other;
      }
      ∷ record (entry "solis_modbus_inverter_battery_charge_discharge_enabled_mirror" 33203 []) {
        multiplier = dec 0 0;
      }
      ∷ record (entry "solis_modbus_inverter_battery_direction_mirror" 33204 []) {
        multiplier = dec 0 0;
      }
      ∷ entry "reserve" 33205 []
      ∷ record (entry "solis_modbus_inverter_battery_max_charge_current_mirror" 33206 []) {
        multiplier = dec 1 1;
        unit = some other;
      }
      ∷ record (entry "solis_modbus_inverter_battery_max_discharge_current_mirror" 33207 []) {
        multiplier = dec 1 1;
        unit = some other;
      }
      ∷ entry "reserve" 33208 (33209 ∷ 33210 ∷ 33211 ∷ 33212 ∷ [])
      ∷ record (entry "solis_modbus_inverter_overdischarge_soc_mirror" 33213 []) {
        multiplier = dec 1 0;
        unit = some percentage;
      }
      ∷ record (entry "solis_modbus_inverter_force_charge_soc_mirror" 33214 []) {
        multiplier = dec 1 0;
        unit = some percentage;
      }
      ∷ record (entry "solis_modbus_inverter_afci_status" 33215 []) { multiplier = dec 0 0 }
      ∷ record (entry "solis_modbus_inverter_leakage_current" 33216 []) {
        multiplier = dec 1 3;
        unit = some other;
      }
      ∷ record (entry "solis_modbus_inverter_battery_current_fast" 33217 []) {
        multiplier = dec 1 1;
        data_type = some DataType.s16;
        unit = some other;
      }
      ∷ [];
}

abbrev pub hybrid_34502 : GroupTable
hybrid_34502 = record (group 34502) {
  poll_speed = some PollSpeed.once;
  entities =
      record (entry "solis_modbus_inverter_remote_dispatch_capability" 34502 []) {
        multiplier = dec 0 0;
      }
      ∷ record (entry "solis_modbus_inverter_remote_dispatch_function_map" 34503 []) {
        multiplier = dec 0 0;
      }
      ∷ [];
}
