-- ===== src/Tables/String3250.antt =====
-- sensor_data/string_sensors.py: groups of the string and grid inverters.
use hh_modbus.Base.{[], ◌∷◌, true, some}
use hh_modbus.Inverter.{DataType, InverterFeature, PollSpeed}
use hh_modbus.Sensors.{entry, dec, watt, kilo_watt, other}
use hh_modbus.Tables.{GroupTable, group}

abbrev pub string_3250 : GroupTable
string_3250 = record (group 3250) {
  poll_speed = some PollSpeed.fast;
  entities =
      record (entry "solis_modbus_meter_ac_voltage_a" 3250 []) {
        multiplier = dec 1 1;
        unit = some other;
      }
      ∷ record (entry "solis_modbus_meter_ac_current_a" 3251 []) {
        multiplier = dec 1 2;
        unit = some other;
      }
      ∷ record (entry "solis_modbus_meter_ac_voltage_b" 3252 []) {
        multiplier = dec 1 1;
        unit = some other;
      }
      ∷ record (entry "solis_modbus_meter_ac_current_b" 3253 []) {
        multiplier = dec 1 2;
        unit = some other;
      }
      ∷ record (entry "solis_modbus_meter_ac_voltage_c" 3254 []) {
        multiplier = dec 1 1;
        unit = some other;
      }
      ∷ record (entry "solis_modbus_meter_ac_current_c" 3255 []) {
        multiplier = dec 1 2;
        unit = some other;
      }
      ∷ record (entry "solis_modbus_meter_ac_active_power_a" 3256 (3257 ∷ [])) {
        multiplier = dec 1 3;
        unit = some kilo_watt;
      }
      ∷ record (entry "solis_modbus_meter_ac_active_power_b" 3258 (3259 ∷ [])) {
        multiplier = dec 1 3;
        unit = some kilo_watt;
      }
      ∷ record (entry "solis_modbus_meter_ac_active_power_c" 3260 (3261 ∷ [])) {
        multiplier = dec 1 3;
        unit = some kilo_watt;
      }
      ∷ record (entry "solis_modbus_meter_ac_active_power_total" 3262 (3263 ∷ [])) {
        multiplier = dec 1 3;
        unit = some kilo_watt;
      }
      ∷ [];
}

abbrev pub string_3280 : GroupTable
string_3280 = record (group 3280) {
  poll_speed = some PollSpeed.slow;
  entities =
      record (entry "solis_modbus_meter_power_factor" 3280 []) {
        multiplier = dec 1 3;
        data_type = some DataType.s16;
      }
      ∷ record (entry "solis_modbus_meter_grid_frequency" 3281 []) {
        multiplier = dec 1 2;
        unit = some other;
      }
      ∷ record (entry "solis_modbus_meter_grid_import_total_energy" 3282 (3283 ∷ [])) {
        multiplier = dec 1 2;
        data_type = some DataType.u32;
        unit = some other;
      }
      ∷ record (entry "solis_modbus_meter_grid_export_total_energy" 3284 (3285 ∷ [])) {
        multiplier = dec 1 2;
        data_type = some DataType.u32;
        unit = some other;
      }
      ∷ [];
}

abbrev pub string_36013 : GroupTable
string_36013 = record (group 36013) {
  feature_requirement = InverterFeature.epm ∷ [];
  essential = true;
  entities =
      record (entry "solis_modbus_inverter_epm_model_no" 36013 []) { multiplier = dec 0 0 }
      ∷ record (entry "solis_modbus_inverter_epm_firmware_version" 36014 []) {
        multiplier = dec 0 0;
      }
      ∷ [];
}

abbrev pub string_36022 : GroupTable
string_36022 = record (group 36022) {
  feature_requirement = InverterFeature.epm ∷ [];
  entities =
      record (entry "solis_modbus_inverter_clock_hours" 36022 []) {
        multiplier = dec 0 0;
        unit = some other;
      }
      ∷ record (entry "solis_modbus_inverter_clock_minutes" 36023 []) {
        multiplier = dec 0 0;
        unit = some other;
      }
      ∷ record (entry "solis_modbus_inverter_clock_seconds" 36024 []) {
        multiplier = dec 0 0;
        unit = some other;
      }
      ∷ [];
}

abbrev pub string_36028 : GroupTable
string_36028 = record (group 36028) {
  feature_requirement = InverterFeature.epm ∷ [];
  essential = true;
  poll_speed = some PollSpeed.fast;
  entities =
      record (entry "solis_modbus_inverter_total_load_power" 36028 (36029 ∷ [])) {
        multiplier = dec 100 0;
        data_type = some DataType.s32_le;
        unit = some watt;
      }
      ∷ [];
}

abbrev pub string_36050 : GroupTable
string_36050 = record (group 36050) {
  feature_requirement = InverterFeature.epm ∷ [];
  essential = true;
  poll_speed = some PollSpeed.slow;
  entities =
      record (entry "solis_modbus_inverter_total_generation_energy" 36050 (36051 ∷ [])) {
        multiplier = dec 1 2;
        data_type = some DataType.u32_le;
        unit = some other;
      }
      ∷ record (entry "solis_modbus_inverter_load_total_consumption_energy" 36052 (36053 ∷ [])) {
        multiplier = dec 1 2;
        data_type = some DataType.u32_le;
        unit = some other;
      }
      ∷ record (entry "solis_modbus_inverter_grid_import_total_active_energy" 36054 (36055 ∷ [])) {
        multiplier = dec 1 2;
        data_type = some DataType.u32_le;
        unit = some other;
      }
      ∷ record (entry "solis_modbus_inverter_grid_export_total_active_energy" 36056 (36057 ∷ [])) {
        multiplier = dec 1 2;
        data_type = some DataType.u32_le;
        unit = some other;
      }
      ∷ [];
}
