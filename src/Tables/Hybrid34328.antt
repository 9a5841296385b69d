-- ===== src/Tables/Hybrid34328.antt =====
-- sensor_data/hybrid_sensors.py: groups of the hybrid inverters.
use hh_modbus.Base.{List, [], ◌∷◌, ◌++◌, true, some}
use hh_modbus.Inverter.{DataType, InverterFeature, PollSpeed}
use hh_modbus.Sensors.{Entry, entry, dec, percentage, watt, other}
use hh_modbus.Tables.{GroupTable, group}

abbrev pub hybrid_34328 : GroupTable
hybrid_34328 = record (group 34328) {
  feature_requirement = InverterFeature.smart_port ∷ [];
  poll_speed = some PollSpeed.fast;
  entities =
      record (entry "solis_modbus_inverter_smartport_a_phase_voltage" 34328 []) {
        multiplier = dec 1 1;
        unit = some other;
      }
      ∷ record (entry "solis_modbus_inverter_smartport_b_phase_voltage" 34329 []) {
        multiplier = dec 1 1;
        unit = some other;
      }
      ∷ record (entry "solis_modbus_inverter_smartport_c_phase_voltage" 34330 []) {
        multiplier = dec 1 1;
        unit = some other;
      }
      ∷ record (entry "solis_modbus_inverter_smartport_a_phase_current" 34331 []) {
        multiplier = dec 1 1;
        unit = some other;
      }
      ∷ record (entry "solis_modbus_inverter_smartport_b_phase_current" 34332 []) {
        multiplier = dec 1 1;
        unit = some other;
      }
      ∷ record (entry "solis_modbus_inverter_smartport_c_phase_current" 34333 []) {
        multiplier = dec 1 1;
        unit = some other;
      }
      ∷ [];
}

abbrev pub hybrid_34391 : GroupTable
hybrid_34391 = record (group 34391) {
  feature_requirement = InverterFeature.smart_port ∷ [];
  extreme_smart_port = true;
  poll_speed = some PollSpeed.fast;
  entities =
      record (entry "solis_modbus_inverter_smartport_a_active_power" 34391 []) {
        multiplier = dec 10 0;
        data_type = some DataType.s16;
        unit = some watt;
      }
      ∷ record (entry "solis_modbus_inverter_smartport_b_active_power" 34392 []) {
        multiplier = dec 10 0;
        data_type = some DataType.s16;
        unit = some watt;
      }
      ∷ record (entry "solis_modbus_inverter_smartport_c_active_power" 34393 []) {
        multiplier = dec 10 0;
        data_type = some DataType.s16;
        unit = some watt;
      }
      ∷ [];
}

abbrev pub hybrid_entries_33251 : List Entry
hybrid_entries_33251 =
    record (entry "solis_modbus_inverter_meter_ac_voltage_a" 33251 []) {
      multiplier = dec 1 1;
      unit = some other;
    }
    ∷ record (entry "solis_modbus_inverter_meter_ac_current_a" 33252 []) {
      multiplier = dec 1 2;
      unit = some other;
    }
    ∷ record (entry "solis_modbus_inverter_meter_ac_voltage_b" 33253 []) {
      multiplier = dec 1 1;
      unit = some other;
    }
    ∷ record (entry "solis_modbus_inverter_meter_ac_current_b" 33254 []) {
      multiplier = dec 1 2;
      unit = some other;
    }
    ∷ record (entry "solis_modbus_inverter_meter_ac_voltage_c" 33255 []) {
      multiplier = dec 1 1;
      unit = some other;
    }
    ∷ record (entry "solis_modbus_inverter_meter_ac_current_c" 33256 []) {
      multiplier = dec 1 2;
      unit = some other;
    }
    ∷ record (entry "solis_modbus_inverter_meter_active_power_a" 33257 (33258 ∷ [])) {
      multiplier = dec 0 0;
      unit = some watt;
    }
    ∷ record (entry "solis_modbus_inverter_meter_active_power_b" 33259 (33260 ∷ [])) {
      multiplier = dec 0 0;
      unit = some watt;
    }
    ∷ record (entry "solis_modbus_inverter_meter_active_power_c" 33261 (33262 ∷ [])) {
      multiplier = dec 0 0;
      unit = some watt;
    }
    ∷ record (entry "solis_modbus_inverter_meter_total_active_power" 33263 (33264 ∷ [])) {
      multiplier = dec 0 0;
      unit = some watt;
    }
    ∷ record (entry "solis_modbus_inverter_meter_reactive_power_a" 33265 (33266 ∷ [])) {
      multiplier = dec 0 0;
      unit = some other;
    }
    ∷ record (entry "solis_modbus_inverter_meter_reactive_power_b" 33267 (33268 ∷ [])) {
      multiplier = dec 0 0;
      unit = some other;
    }
    ∷ record (entry "solis_modbus_inverter_meter_reactive_power_c" 33269 (33270 ∷ [])) {
      multiplier = dec 0 0;
      unit = some other;
    }
    ∷ record (entry "solis_modbus_inverter_meter_total_reactive_power" 33271 (33272 ∷ [])) {
      multiplier = dec 0 0;
      unit = some other;
    }
    ∷ []

abbrev pub hybrid_entries_33273 : List Entry
hybrid_entries_33273 =
    record (entry "solis_modbus_inverter_meter_apparent_power_a" 33273 (33274 ∷ [])) {
      multiplier = dec 0 0;
      unit = some other;
    }
    ∷ record (entry "solis_modbus_inverter_meter_apparent_power_b" 33275 (33276 ∷ [])) {
      multiplier = dec 0 0;
      unit = some other;
    }
    ∷ record (entry "solis_modbus_inverter_meter_apparent_power_c" 33277 (33278 ∷ [])) {
      multiplier = dec 0 0;
      unit = some other;
    }
    ∷ record (entry "solis_modbus_inverter_meter_total_apparent_power" 33279 (33280 ∷ [])) {
      multiplier = dec 0 0;
      unit = some other;
    }
    ∷ record (entry "solis_modbus_inverter_meter_power_factor" 33281 []) {
      multiplier = dec 1 2;
      data_type = some DataType.s16;
      unit = some percentage;
    }
    ∷ record (entry "solis_modbus_inverter_meter_grid_frequency" 33282 []) {
      multiplier = dec 1 2;
      unit = some other;
    }
    ∷ record (entry "solis_modbus_inverter_meter_total_active_energy_from_grid" 33283
        (33284 ∷ [])) { multiplier = dec 1 2; data_type = some DataType.u32; unit = some other }
    ∷ record (entry "solis_modbus_inverter_meter_total_active_energy_to_grid" 33285 (33286 ∷ [])) {
      multiplier = dec 1 2;
      data_type = some DataType.u32;
      unit = some other;
    }
    ∷ []

abbrev pub hybrid_33251 : GroupTable
hybrid_33251 = record (group 33251) {
  poll_speed = some PollSpeed.fast;
  entities = hybrid_entries_33251 ++ hybrid_entries_33273;
}

abbrev pub hybrid_33289 : GroupTable
hybrid_33289 = record (group 33289) {
  poll_speed = some PollSpeed.slow;
  entities =
      record (entry "solis_modbus_inverter_tou_function_version" 33289 []) { multiplier = dec 0 0 }
      ∷ [];
}
