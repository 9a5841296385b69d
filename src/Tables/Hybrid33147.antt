-- ===== src/Tables/Hybrid33147.antt =====
-- sensor_data/hybrid_sensors.py: groups of the hybrid inverters.
use hh_modbus.Base.{List, [], ◌∷◌, ◌++◌, true, some}
use hh_modbus.Tables.Hybrid33070.{hybrid_entries_33132}
use hh_modbus.Inverter.{DataType, InverterFeature, PollSpeed}
use hh_modbus.Sensors.{Entry, entry, dec, watt, kilo_watt, other}
use hh_modbus.Tables.{GroupTable, group}

abbrev pub hybrid_entries_33147 : List Entry
hybrid_entries_33147 =
    record (entry "solis_modbus_inverter_household_load_power" 33147 []) {
      multiplier = dec 0 0;
      unit = some watt;
    }
    ∷ record (entry "solis_modbus_inverter_backup_load_power" 33148 []) {
      multiplier = dec 0 0;
      unit = some watt;
    }
    ∷ record (entry "solis_modbus_inverter_battery_power" 33149 (33150 ∷ [])) {
      multiplier = dec 0 0;
      unit = some watt;
    }
    ∷ record (entry "solis_modbus_inverter_ac_grid_port_power" 33151 (33152 ∷ [])) {
      multiplier = dec 0 0;
      unit = some watt;
    }
    ∷ record (entry "solis_modbus_inverter_backup_ac_voltage_phase_b" 33153 []) {
      multiplier = dec 1 1;
      unit = some other;
    }
    ∷ record (entry "solis_modbus_inverter_backup_ac_current_phase_b" 33154 []) {
      multiplier = dec 1 1;
      unit = some other;
    }
    ∷ record (entry "solis_modbus_inverter_backup_ac_voltage_phase_c" 33155 []) {
      multiplier = dec 1 1;
      unit = some other;
    }
    ∷ record (entry "solis_modbus_inverter_backup_ac_current_phase_c" 33156 []) {
      multiplier = dec 1 1;
      unit = some other;
    }
    ∷ record (entry "solis_modbus_inverter_inverting_rectifying_power" 33157 []) {
      multiplier = dec 10 0;
      data_type = some DataType.s16;
      unit = some watt;
    }
    ∷ []

abbrev pub hybrid_33132 : GroupTable
hybrid_33132 = record (group 33132) {
  essential = true;
  extreme_battery = true;
  poll_speed = some PollSpeed.fast;
  entities = hybrid_entries_33132 ++ hybrid_entries_33147;
}

abbrev pub hybrid_entries_33161 : List Entry
hybrid_entries_33161 =
    record (entry "solis_modbus_inverter_total_battery_charge_energy" 33161 (33162 ∷ [])) {
      multiplier = dec 1 0;
      data_type = some DataType.u32;
      unit = some other;
    }
    ∷ record (entry "solis_modbus_inverter_today_battery_charge_energy" 33163 []) {
      multiplier = dec 1 1;
      unit = some other;
    }
    ∷ record (entry "solis_modbus_inverter_yesterday_battery_charge_energy" 33164 []) {
      multiplier = dec 1 1;
      unit = some other;
    }
    ∷ record (entry "solis_modbus_inverter_total_battery_discharge_energy" 33165 (33166 ∷ [])) {
      multiplier = dec 1 0;
      data_type = some DataType.u32;
      unit = some other;
    }
    ∷ record (entry "solis_modbus_inverter_today_battery_discharge_energy" 33167 []) {
      multiplier = dec 1 1;
      unit = some other;
    }
    ∷ record (entry "solis_modbus_inverter_yesterday_battery_discharge_energy" 33168 []) {
      multiplier = dec 1 1;
      unit = some other;
    }
    ∷ record (entry "solis_modbus_inverter_total_energy_imported_from_grid" 33169 (33170 ∷ [])) {
      multiplier = dec 0 0;
      data_type = some DataType.u32;
      unit = some other;
    }
    ∷ record (entry "solis_modbus_inverter_today_energy_imported_from_grid" 33171 []) {
      multiplier = dec 1 1;
      unit = some other;
    }
    ∷ record (entry "solis_modbus_inverter_yesterday_energy_imported_from_grid" 33172 []) {
      multiplier = dec 1 1;
      unit = some other;
    }
    ∷ record (entry "solis_modbus_inverter_total_energy_fed_into_grid" 33173 (33174 ∷ [])) {
      multiplier = dec 0 0;
      data_type = some DataType.u32;
      unit = some other;
    }
    ∷ record (entry "solis_modbus_inverter_today_energy_fed_into_grid" 33175 []) {
      multiplier = dec 1 1;
      unit = some other;
    }
    ∷ record (entry "solis_modbus_inverter_yesterday_energy_fed_into_grid" 33176 []) {
      multiplier = dec 1 1;
      unit = some other;
    }
    ∷ record (entry "solis_modbus_inverter_total_energy_consumption" 33177 (33178 ∷ [])) {
      multiplier = dec 0 0;
      data_type = some DataType.u32;
      unit = some other;
    }
    ∷ record (entry "solis_modbus_inverter_today_energy_consumption" 33179 []) {
      multiplier = dec 1 1;
      unit = some other;
    }
    ∷ []

abbrev pub hybrid_entries_33180 : List Entry
hybrid_entries_33180 =
    record (entry "solis_modbus_inverter_yesterday_energy_consumption" 33180 []) {
      multiplier = dec 1 1;
      unit = some other;
    }
    ∷ entry "reserve" 33181 (33182 ∷ 33183 ∷ 33184 ∷ 33185 ∷ [])
    ∷ record (entry "solis_modbus_inverter_ac_grid_port_total_energy_fed_in" 33186 (33187 ∷ [])) {
      multiplier = dec 1 0;
      data_type = some DataType.u32;
      unit = some other;
    }
    ∷ record (entry "solis_modbus_inverter_ac_grid_port_total_energy_consumption" 33188
        (33189 ∷ [])) { multiplier = dec 1 0; data_type = some DataType.u32; unit = some other }
    ∷ []

abbrev pub hybrid_33161 : GroupTable
hybrid_33161 = record (group 33161) {
  essential = true;
  poll_speed = some PollSpeed.slow;
  entities = hybrid_entries_33161 ++ hybrid_entries_33180;
}

abbrev pub hybrid_33243 : GroupTable
hybrid_33243 = record (group 33243) {
  poll_speed = some PollSpeed.normal;
  entities =
      record (entry "solis_modbus_inverter_parallel_inverter_ac_current" 33243 []) {
        multiplier = dec 1 1;
        unit = some other;
      }
      ∷ record (entry "solis_modbus_inverter_parallel_inverter_ac_voltage" 33244 []) {
        multiplier = dec 1 1;
        unit = some other;
      }
      ∷ record (entry "solis_modbus_inverter_parallel_inverter_power" 33245 []) {
        multiplier = dec 1 1;
        unit = some kilo_watt;
      }
      ∷ record (entry "solis_modbus_inverter_parallel_ct_detection" 33246 []) {
        multiplier = dec 0 0;
      }
      ∷ record (entry "solis_modbus_inverter_epm_setpoint_power" 33247 []) {
        multiplier = dec 100 0;
        data_type = some DataType.s16;
        unit = some watt;
      }
      ∷ record (entry "solis_modbus_inverter_epm_status_bits" 33248 []) { multiplier = dec 0 0 }
      ∷ record (entry "solis_modbus_inverter_epm_backflow_power_realtime" 33249 []) {
        multiplier = dec 100 0;
        data_type = some DataType.s16;
        unit = some watt;
      }
      ∷ record (entry "solis_modbus_inverter_meter_placement_status_bits" 33250 []) {
        multiplier = dec 0 0;
      }
      ∷ [];
}

abbrev pub hybrid_34243 : GroupTable
hybrid_34243 = record (group 34243) {
  feature_requirement = InverterFeature.parallel ∷ [];
  poll_speed = some PollSpeed.slow;
  entities =
      record (entry "solis_modbus_inverter_parallel_synchronization_setting_parameter_result" 34243
        []) { multiplier = dec 0 0 }
      ∷ [];
}
